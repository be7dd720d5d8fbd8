-- ===== src/Filter/Cost.antt =====
-- What NeedsCmdline promises to the scanner: without it the command line need not be read.
use cpu_process_exporter.Base.{ℕ, ◌≡◌, refl, Bool, true, false, List, [], ◌∷◌, Bytes, arith}
use cpu_process_exporter.Config.{FilterConfig, items, is_nil, needs_cmdline}
use cpu_process_exporter.Filter.{
  Filter, Input, PatternError, NewResult, ok, err, ignore_comm_regex, ignore_cmdline_regex,
  include_only, compile_all, new, keep,
}
use cpu_process_exporter.Regexp.{Regexp}

without :
    (cfg : FilterConfig)
    → needs_cmdline cfg ≡ false
    → (is_nil (items cfg.ignore_cmdline_regex) ≡ true)
      × (cfg.ignore_kernel_threads ≡ false)
      × (is_nil (items cfg.include_only) ≡ true)
unfolding needs_cmdline
without cfg off = ground arith

module _ {R M : Type 0} (rx : Regexp R M) where
  -- The three lists that New compiles.
  abbrev Compiled :
      FilterConfig → NewResult (List R) → NewResult (List R) → NewResult (List R) → Type 0
  Compiled cfg a b c =
      (compile_all rx ignore_comm_regex 0 (items cfg.ignore_comm_regex) ≡ a)
      × (compile_all rx ignore_cmdline_regex 0 (items cfg.ignore_cmdline_regex) ≡ b)
      × (compile_all rx include_only 0 (items cfg.include_only) ≡ c)

  new_parts :
      (cfg : FilterConfig) (a b c : NewResult (List R)) {f : Filter R}
      → Compiled cfg a b c
      → new rx cfg ≡ ok f
      → (b ≡ ok f.ignore_cmd)
        × (c ≡ ok f.include_only)
        × (f.ignore_kernel ≡ cfg.ignore_kernel_threads)
  unfolding new
  new_parts cfg (ok a) (ok b) (ok c) (ha, hb, hc) h = ground arith
  new_parts cfg (err a) b c (ha, hb, hc) h = ground arith
  new_parts cfg (ok a) (err b) c (ha, hb, hc) h = ground arith
  new_parts cfg (ok a) (ok b) (err c) (ha, hb, hc) h = ground arith

  compile_none :
      (error : ℕ → PatternError) (ps : List Bytes) {res : List R}
      → compile_all rx error 0 ps ≡ ok res
      → is_nil ps ≡ true
      → res ≡ []
  unfolding compile_all
  compile_none error [] h empty = cc
  compile_none error (p ∷ ps) h empty = cc

  -- A filter that New builds from a configuration that does not need the command line decides the same
  -- whatever the command line is, and whatever is said of the process being a kernel thread.
  pub keep_without_cmdline :
      (cfg : FilterConfig) (f : Filter R)
      → new rx cfg ≡ ok f
      → needs_cmdline cfg ≡ false
      → (i : Input) (cmdline : List Bytes) (is_kernel : Bool)
      → keep rx f (record i { cmdline = cmdline; is_kernel = is_kernel }) ≡ keep rx f i
  unfolding keep
  keep_without_cmdline cfg f built off i cmdline is_kernel =
      let (cmd, inc, kernel) = new_parts cfg _ _ _ (refl, refl, refl) built in
      let (no_cmd, no_kernel, no_inc) = without cfg off in
      let cmd_nil = compile_none ignore_cmdline_regex (items cfg.ignore_cmdline_regex) cmd no_cmd in
      let inc_nil = compile_none include_only (items cfg.include_only) inc no_inc in
      rw (inc_nil, cmd_nil, kernel, no_kernel) (ground arith)
