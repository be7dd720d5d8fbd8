-- ===== src/Namer.antt =====
-- internal/namer/namer.go: the group name of a process.
pub mod Sanitize
pub mod Labels
pub mod Rules
use cpu_process_exporter.Base.{
  ℕ, suc, Bool, true, false, not, ◌&&◌, ◌||◌, List, [], ◌∷◌, Option, none, some, Bytes, codes,
  is_empty, eqb, has_prefix, join, if◌then◌else◌, drop_while, ◌==◌, ◌++◌, leb, length, ltb, take,
}
use cpu_process_exporter.Config.{NamingConfig, NamingRule, items, is_nil}
use cpu_process_exporter.Regexp.{Regexp}
use Sanitize.{sanitize}

-- A nil pattern is none.
pub record CompiledRule (R : Type 0) : Type 0 where
  pub match_comm : Bytes
  pub match_comm_prefix : Bytes
  pub match_comm_regex : Option R
  pub match_exe_regex : Option R
  pub from : Bytes
  pub extract : Option R
  pub template : Bytes

pub record Namer (R : Type 0) : Type 0 where
  pub rules : List (CompiledRule R)
  pub fallback : Bytes

pub record Input : Type 0 where
  pub comm : Bytes
  pub exe : Bytes
  pub cmdline : List Bytes

-- Why New fails: the index of the rule, and the field whose pattern does not compile.
pub data RuleError : Type 0 where
  bad_match_comm_regex bad_match_exe_regex bad_regex : ℕ → RuleError

pub data NewResult {ℓ} (A : Type ℓ) : Type ℓ where
  ok : A → NewResult A
  err : RuleError → NewResult A

infixl 5 ◌>>=◌
abbrev pub ◌>>=◌ {ℓ κ} : {A : Type ℓ} {B : Type κ} → NewResult A → (A → NewResult B) → NewResult B
ok a >>= f = f a
err e >>= f = err e

-- What follows the last slash of a text.
unfoldable pub after_slash : Bytes → Bytes → Bytes
after_slash seen [] = seen
after_slash seen (c ∷ s) = after_slash (if c == b'/' then [] else seen ++ (c ∷ [])) s

abbrev strip_slashes : Bytes → Bytes
strip_slashes [] = []
strip_slashes (c ∷ s) =
    let rest = strip_slashes s in if c == b'/' && is_empty rest then [] else c ∷ rest

abbrev slash_if_empty : Bytes → Bytes
slash_if_empty [] = codes "/"
slash_if_empty (c ∷ s) = c ∷ s

-- filepath.Base: "." of the empty path, "/" of slashes only, the last element otherwise.
unfoldable pub base : Bytes → Bytes
unfolding after_slash
base [] = codes "."
base (c ∷ s) = slash_if_empty (after_slash [] (strip_slashes (c ∷ s)))

-- The text that an extraction pattern runs against.
unfoldable pub source_text : Bytes → Input → Bytes
source_text from i =
    if eqb from (codes "comm")
    then i.comm
    else if eqb from (codes "exe")
    then i.exe
    else join b' ' i.cmdline

-- The end of fallbackName, behind its switch.
abbrev pub default_name : Bytes → Bytes → List Bytes → Bytes
default_name (c ∷ comm) exe cmdline = c ∷ comm
default_name [] (c ∷ exe) cmdline = base (c ∷ exe)
default_name [] [] (arg ∷ args) = base arg
default_name [] [] [] = codes "unknown"

abbrev pub exe_first : Input → Bytes → List Bytes → Bytes
exe_first i (c ∷ exe) cmdline = base (c ∷ exe)
exe_first i [] (arg ∷ args) = base arg
exe_first i [] [] = default_name i.comm i.exe i.cmdline

abbrev pub cmdline_first : Input → Bytes → List Bytes → Bytes
cmdline_first i exe (arg ∷ args) = base arg
cmdline_first i (c ∷ exe) [] = base (c ∷ exe)
cmdline_first i [] [] = default_name i.comm i.exe i.cmdline

unfoldable pub fallback_name : {R : Type 0} → Namer R → Input → Bytes
fallback_name n i =
    if eqb n.fallback (codes "exe_basename")
    then exe_first i i.exe i.cmdline
    else if eqb n.fallback (codes "cmdline_basename")
    then cmdline_first i i.exe i.cmdline
    else default_name i.comm i.exe i.cmdline

module _ {R M : Type 0} (rx : Regexp R M) where
  abbrev pub compile_field : RuleError → Bytes → NewResult (Option R)
  compile_field error [] = ok none
  compile_field error (c ∷ p) = elim (rx.compile (c ∷ p)) [
    | none ↦ err error
    | some re ↦ ok (some re)
  ]

  unfoldable pub compile_rule : ℕ → NamingRule → NewResult (CompiledRule R)
  compile_rule i r = do
    comm_regex ← compile_field (bad_match_comm_regex i) r.match_comm_regex
    exe_regex ← compile_field (bad_match_exe_regex i) r.match_exe_regex
    extract ← compile_field (bad_regex i) r.regex
    ok (record {
      match_comm = r.match_comm;
      match_comm_prefix = r.match_comm_prefix;
      match_comm_regex = comm_regex;
      match_exe_regex = exe_regex;
      from = if is_empty r.from then codes "cmdline" else r.from;
      extract = extract;
      template = r.name;
    })

  unfoldable pub compile_rules : ℕ → List NamingRule → NewResult (List (CompiledRule R))
  unfolding compile_rule
  compile_rules i [] = ok []
  compile_rules i (r ∷ rs) = do cr ← compile_rule i r; crs ← compile_rules (suc i) rs; ok (cr ∷ crs)

  unfoldable pub new : NamingConfig → NewResult (Namer R)
  unfolding compile_rules
  new cfg = do
    rules ← compile_rules 0 (items cfg.rules)
    ok (record {
      rules = rules;
      fallback = if is_empty cfg.fallback then codes "comm" else cfg.fallback;
    })

  abbrev regex_holds : Option R → Bytes → Bool
  regex_holds none s = true
  regex_holds (some re) s = rx.match_string re s

  abbrev exe_holds : Option R → Bytes → Bool
  exe_holds none exe = true
  exe_holds (some re) exe = not (is_empty exe) && rx.match_string re exe

  unfoldable pub matches : CompiledRule R → Input → Bool
  matches r i =
      if not (is_empty r.match_comm) && not (eqb i.comm r.match_comm)
      then false
      else if not (is_empty r.match_comm_prefix) && not (has_prefix i.comm r.match_comm_prefix)
      then false
      else if not (regex_holds r.match_comm_regex i.comm)
      then false
      else exe_holds r.match_exe_regex i.exe

  abbrev expanded : R → Bytes → Bytes → Option M → Option Bytes
  expanded re template text none = none
  expanded re template text (some m) =
      let out = rx.expand re template text m in if is_empty out then none else some out

  -- The name that one rule produces, none where it produces none.
  abbrev extracted : CompiledRule R → Option R → Bytes → Option Bytes
  extracted r none text = some r.template
  extracted r (some re) text =
      if is_empty text then none else expanded re r.template text (rx.find_submatch re text)

  unfoldable pub apply_rule : CompiledRule R → Input → Option Bytes
  apply_rule r i = extracted r r.extract (source_text r.from i)

  -- What one round of the loop in Name yields: a name, or none to go on.
  unfoldable pub try_rule : CompiledRule R → Input → Option Bytes
  unfolding matches apply_rule
  try_rule r i = if not (matches r i) then none else apply_rule r i

  unfoldable pub first_name : List (CompiledRule R) → Input → Option Bytes
  first_name [] i = none
  first_name (r ∷ rs) i = elim (try_rule r i) [ none ↦ first_name rs i | some name ↦ some name ]

  abbrev named : Option Bytes → Bytes → Bytes
  named none fallback = sanitize fallback
  named (some name) fallback = sanitize name

  unfoldable pub name : Namer R → Input → Bytes
  unfolding first_name try_rule
  name n i = named (first_name n.rules i) (fallback_name n i)
