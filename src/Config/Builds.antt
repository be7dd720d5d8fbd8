-- ===== src/Config/Builds.antt =====
-- What Load accepts builds: the filter and the namer compile the same patterns that Validate tried.
use cpu_process_exporter.Base.{
  ℕ, suc, ◌≡◌, refl, not, List, [], ◌∷◌, Option, none, some, Bytes, codes, is_empty, if◌then◌else◌,
  arith, is_some-some,
}
use cpu_process_exporter.Config.{
  FilterConfig, NamingRule, NamingConfig, Config, items, needs_cmdline,
}
use cpu_process_exporter.Config.Load.{
  Files, Problem, ok, check, check_scan, compiles, check_patterns, check_filter, check_field,
  matches_nothing, unknown_from, check_rule, check_rules, check_naming, validate, load,
}
use cpu_process_exporter.Filter
use cpu_process_exporter.Filter.{Filter, PatternError}
use cpu_process_exporter.Namer
use cpu_process_exporter.Namer.{Namer, RuleError, compile_field}
use cpu_process_exporter.Regexp.{Regexp}
use cpu_process_exporter.Config.Accepted.{load-IsAccepted, append-eq-nil, check-eq-nil}

module _ {R M : Type 0} (rx : Regexp R M) where
  checked-some :
      (p : Bytes) (problem : Problem)
      → check (not (compiles rx p)) problem ≡ []
      → (re : R) × (rx.compile p ≡ some re)
  checked-some p problem h =
      is_some-some (rx.compile p) (ground (arith, check-eq-nil (not (compiles rx p)) problem h))

  -- The patterns of a filter.
  compile_all-ok :
      (problem : ℕ → Problem) (error : ℕ → PatternError) (i j : ℕ) (ps : List Bytes)
      → check_patterns rx problem i ps ≡ []
      → (res : List R) × (Filter.compile_all rx error j ps ≡ Filter.ok res)
  unfolding check_patterns Filter.compile_all
  compile_all-ok problem error i j [] h = ([], refl)
  compile_all-ok problem error i j (p ∷ ps) h =
      let (now, later) =
        append-eq-nil (check (not (compiles rx p)) (problem i))
          (check_patterns rx problem (suc i) ps) h in
      let (res, is) = compile_all-ok problem error (suc i) (suc j) ps later in
      let (re, good) = checked-some p (problem i) now in
      (re ∷ res, rw (good, Filter.compile_all, is) refl)

  -- What New of the filter is given compiles.
  filter_new-ok :
      (f : FilterConfig)
      → check_filter rx f ≡ []
      → (built : Filter R) × (Filter.new rx f ≡ Filter.ok built)
  unfolding check_filter Filter.new
  filter_new-ok f h =
      let (a, rest) =
        append-eq-nil (check_patterns rx Problem.bad_comm_regex 0 (items f.ignore_comm_regex)) _
          h in
      let (b, c) =
        append-eq-nil (check_patterns rx Problem.bad_cmdline_regex 0 (items f.ignore_cmdline_regex))
          _ rest in
      let (r1, e1) =
        compile_all-ok Problem.bad_comm_regex PatternError.ignore_comm_regex 0 0
          (items f.ignore_comm_regex) a in
      let (r2, e2) =
        compile_all-ok Problem.bad_cmdline_regex PatternError.ignore_cmdline_regex 0 0
          (items f.ignore_cmdline_regex) b in
      let (r3, e3) =
        compile_all-ok Problem.bad_include_only PatternError.include_only 0 0 (items f.include_only)
          c in
      (
        record {
          ignore_kernel = f.ignore_kernel_threads;
          ignore_comm = items f.ignore_comm;
          ignore_prefix = items f.ignore_comm_prefix;
          ignore_regex = r1;
          ignore_cmd = r2;
          ignore_users = items f.ignore_users;
          include_only = r3;
          needs_cmdline = needs_cmdline f;
        },
        rw (e1, e2, e3) refl,
      )

  compile_field-ok :
      (p : Bytes) (problem : Problem) (error : RuleError)
      → check_field rx p problem ≡ []
      → (o : Option R) × (compile_field rx error p ≡ Namer.ok o)
  compile_field-ok [] problem error h = (none, refl)
  compile_field-ok (c ∷ p) problem error h =
      let (re, good) = checked-some (c ∷ p) problem h in (some re, rw (good, compile_field) refl)

  compile_rule-ok :
      (i j : ℕ) (r : NamingRule)
      → check_rule rx i r ≡ []
      → (built : Namer.CompiledRule R) × (Namer.compile_rule rx j r ≡ Namer.ok built)
  unfolding check_rule Namer.compile_rule
  compile_rule-ok i j r h =
      let (h1, k1) = append-eq-nil (check (matches_nothing r) (Problem.no_match i)) _ h in
      let (h2, k2) = append-eq-nil (check (is_empty r.name) (Problem.no_name i)) _ k1 in
      let (h3, k3) = append-eq-nil (check (unknown_from r) (Problem.bad_from i)) _ k2 in
      let (h4, k4) =
        append-eq-nil (check_field rx r.match_comm_regex (Problem.bad_match_comm_regex i)) _ k3 in
      let (h5, k5) =
        append-eq-nil (check_field rx r.match_exe_regex (Problem.bad_match_exe_regex i)) _ k4 in
      let (h6, k6) = append-eq-nil (check_field rx r.regex (Problem.bad_regex i)) _ k5 in
      let (o1, e1) =
        compile_field-ok r.match_comm_regex (Problem.bad_match_comm_regex i)
          (Namer.bad_match_comm_regex j) h4 in
      let (o2, e2) =
        compile_field-ok r.match_exe_regex (Problem.bad_match_exe_regex i)
          (Namer.bad_match_exe_regex j) h5 in
      let (o3, e3) = compile_field-ok r.regex (Problem.bad_regex i) (Namer.bad_regex j) h6 in
      (
        record {
          match_comm = r.match_comm;
          match_comm_prefix = r.match_comm_prefix;
          match_comm_regex = o1;
          match_exe_regex = o2;
          from = if is_empty r.from then codes "cmdline" else r.from;
          extract = o3;
          template = r.name;
        },
        rw (e1, e2, e3) refl,
      )

  compile_rules-ok :
      (i j : ℕ) (rs : List NamingRule)
      → check_rules rx i rs ≡ []
      → (built : List (Namer.CompiledRule R)) × (Namer.compile_rules rx j rs ≡ Namer.ok built)
  unfolding check_rules Namer.compile_rules
  compile_rules-ok i j [] h = ([], refl)
  compile_rules-ok i j (r ∷ rs) h =
      let (now, later) = append-eq-nil (check_rule rx i r) (check_rules rx (suc i) rs) h in
      let (cr, e1) = compile_rule-ok i j r now in
      let (crs, e2) = compile_rules-ok (suc i) (suc j) rs later in (cr ∷ crs, rw (e1, e2) refl)

  namer_new-ok :
      (n : NamingConfig)
      → check_naming rx n ≡ []
      → (built : Namer R) × (Namer.new rx n ≡ Namer.ok built)
  unfolding check_naming Namer.new
  namer_new-ok n h =
      let (k, rules) =
        append-eq-nil (check _ Problem.bad_fallback) (check_rules rx 0 (items n.rules)) h in
      let (crs, e) = compile_rules-ok 0 0 (items n.rules) rules in
      (
        record { rules = crs; fallback = if is_empty n.fallback then codes "comm" else n.fallback },
        rw e refl,
      )

  -- From a configuration that Load accepts, both the filter and the namer are built without an error.
  pub accepted_builds :
      (fs : Files) (path : Bytes) (c : Config)
      → load rx fs path ≡ ok c
      → ((f : Filter R) × (Filter.new rx c.filter ≡ Filter.ok f))
        × ((n : Namer R) × (Namer.new rx c.naming ≡ Namer.ok n))
  unfolding validate
  accepted_builds fs path c h =
      let accepted = load-IsAccepted rx fs path c h in
      let (scan, rest) = append-eq-nil (check_scan accepted.stat_path c.scan) _ accepted.valid in
      let (filter, rest') = append-eq-nil (check_filter rx c.filter) _ rest in
      let (naming, rest'') = append-eq-nil (check_naming rx c.naming) _ rest' in
      (filter_new-ok c.filter filter, namer_new-ok c.naming naming)
