-- ===== src/Namer/Rules.antt =====
-- Name tries the rules in order.
use cpu_process_exporter.Base.{◌≡◌, refl, ap, ◌∙◌, List, [], ◌∷◌, ◌++◌, none, some, Bytes, All}
use cpu_process_exporter.Namer.{
  CompiledRule, Input, fallback_name, try_rule, first_name, named, name,
}
use cpu_process_exporter.Namer.Sanitize.{sanitize}
use cpu_process_exporter.Regexp.{Regexp}

module _ {R M : Type 0} (rx : Regexp R M) (i : Input) where
  -- The rule yields no name: it does not match, or its pattern extracts nothing.
  abbrev pub YieldsNone : CompiledRule R → Type 0
  YieldsNone r = try_rule rx r i ≡ none

  first_name-append :
      (passed rest : List (CompiledRule R))
      → All YieldsNone passed
      → first_name rx (passed ++ rest) i ≡ first_name rx rest i
  unfolding first_name
  first_name-append [] rest h = refl
  first_name-append (r ∷ passed) rest h = rw (h.0, first_name) (first_name-append passed rest h.1)

  first_name-head :
      (r : CompiledRule R) (rest : List (CompiledRule R)) (found : Bytes)
      → try_rule rx r i ≡ some found
      → first_name rx (r ∷ rest) i ≡ some found
  unfolding first_name
  first_name-head r rest found h = rw (h, first_name) refl

  -- A rule that yields a name gives the group name, sanitized, where no rule before it yields one, and
  -- whatever the rules behind it are.
  pub name_first :
      (passed rest : List (CompiledRule R)) (r : CompiledRule R) (found fallback : Bytes)
      → All YieldsNone passed
      → try_rule rx r i ≡ some found
      → name rx (record { rules = passed ++ (r ∷ rest); fallback = fallback }) i ≡ sanitize found
  unfolding name
  name_first passed rest r found fallback none_before h =
      ap
        (λ o.
          named rx o
            (fallback_name (record { rules = passed ++ (r ∷ rest); fallback = fallback }) i))
        (first_name-append passed (r ∷ rest) none_before ∙ first_name-head r rest found h)
