-- ===== src/Config/Shipped.antt =====
-- The shipped defaults are a valid configuration.
use cpu_process_exporter.Base.{
  ℕ, suc, ◌≡◌, refl, ap, Bool, true, ◌&&◌, not, List, [], ◌∷◌, ◌++◌, some, Bytes, codes, is_empty,
  any, All, ◌==◌, eqb, has_prefix, arith,
}
use cpu_process_exporter.Config.{NamingRule, items}
use cpu_process_exporter.Config.Defaults.{default_ignore_comm_regex, default_naming_rules, default}
use cpu_process_exporter.Config.Load.{
  directory, Files, Problem, ok, matches_nothing, unknown_from, compiles, check_patterns,
  check_rule, check_rules, check_path, check_scan, check_filter, check_naming, mul_duration,
  validate, normalise, parse, load,
}
use cpu_process_exporter.Regexp.{Regexp}

both-nil : {A : Type 0} {xs ys : List A} → xs ≡ [] → ys ≡ [] → xs ++ ys ≡ []
both-nil h k = rw (h, k) refl

default-check_scan :
    (fs : Files)
    → fs.stat_path (codes "/proc") ≡ directory
    → check_scan fs.stat_path (normalise default).scan ≡ []
unfolding check_scan mul_duration normalise default check_path
default-check_scan fs dir = rw dir refl

module _ {R M : Type 0} (rx : Regexp R M) where
  check_patterns-eq-nil :
      (problem : ℕ → Problem) (i : ℕ) (ps : List Bytes)
      → All (λ p. compiles rx p ≡ true) ps
      → check_patterns rx problem i ps ≡ []
  unfolding check_patterns
  check_patterns-eq-nil problem i [] h = refl
  check_patterns-eq-nil problem i (p ∷ ps) h =
      rw (h.0, check_patterns-eq-nil problem (suc i) ps h.1) refl

  -- A rule without a pattern on comm or exe that has no problem but its pattern's.
  abbrev is_plain : NamingRule → Bool
  is_plain r =
      not (matches_nothing r)
      && not (is_empty r.name)
      && not (unknown_from r)
      && is_empty r.match_comm_regex
      && is_empty r.match_exe_regex
      && not (is_empty r.regex && any (λ c. c == b'$') r.name)

  check_rule-eq-nil :
      (i : ℕ) (r : NamingRule)
      → is_plain r ≡ true
      → compiles rx r.regex ≡ true
      → check_rule rx i r ≡ []
  unfolding check_rule
  check_rule-eq-nil i r plain good = ground arith

  check_rules-eq-nil :
      (i : ℕ) (rs : List NamingRule)
      → All (λ r. is_plain r ≡ true) rs
      → All (λ r. compiles rx r.regex ≡ true) rs
      → check_rules rx i rs ≡ []
  unfolding check_rules
  check_rules-eq-nil i [] h k = refl
  check_rules-eq-nil i (r ∷ rs) h k =
      rw (check_rule-eq-nil i r h.0 k.0, check_rules-eq-nil (suc i) rs h.1 k.1) refl

  default_rules_plain : All (λ r. is_plain r ≡ true) (items (normalise default).naming.rules)
  unfolding normalise default default_naming_rules eqb
  default_rules_plain = (refl, (refl, (refl, (refl, (refl, (refl, (refl, (refl, tt))))))))

  -- The patterns of the default lists compile.
  pub record CompilesDefaults : Type 0 where
    pub comm_regex : All (λ p. compiles rx p ≡ true) default_ignore_comm_regex
    pub rule_regex : All (λ r. compiles rx r.regex ≡ true) default_naming_rules

  default_rules_compile :
      CompilesDefaults
      → All (λ r. compiles rx r.regex ≡ true) (items (normalise default).naming.rules)
  unfolding normalise default default_naming_rules
  default_rules_compile h = h.rule_regex

  default-check_filter : CompilesDefaults → check_filter rx (normalise default).filter ≡ []
  unfolding check_filter check_patterns normalise default
  default-check_filter h =
      ap (λ ps. ps ++ [])
        (check_patterns-eq-nil Problem.bad_comm_regex 0 default_ignore_comm_regex h.comm_regex)

  default-check_naming : CompilesDefaults → check_naming rx (normalise default).naming ≡ []
  unfolding check_naming eqb normalise default
  default-check_naming h =
      check_rules-eq-nil 0 (items (normalise default).naming.rules) default_rules_plain
        (default_rules_compile h)

  default-validate :
      (fs : Files)
      → fs.stat_path (codes "/proc") ≡ directory
      → CompilesDefaults
      → validate rx fs.stat_path (normalise default) ≡ []
  unfolding validate eqb has_prefix normalise default
  default-validate fs dir h =
      both-nil (default-check_scan fs dir)
        (both-nil (default-check_filter h) (both-nil (default-check_naming h) refl))

  -- A file whose document sets nothing loads as the normal form of the defaults, where /proc is a
  -- directory and the default patterns compile.
  pub default-load :
      (fs : Files) (path text : Bytes)
      → fs.read_file path ≡ some text
      → fs.decode_json text default ≡ some default
      → fs.decode_yaml text default ≡ some default
      → fs.stat_path (codes "/proc") ≡ directory
      → CompilesDefaults
      → load rx fs path ≡ ok (normalise default)
  unfolding load parse
  default-load fs path text read json yaml dir h =
      rw read (ground (arith, json, yaml, default-validate fs dir h))
