-- ===== src/Scan/Accounting.antt =====
-- Every process that readProcess does not return is counted, once, in one of four counts.
use cpu_process_exporter.Base.{
  ℕ, suc, ◌+◌, ◌≡◌, refl, false, List, [], ◌∷◌, Option, none, some, Bytes, codes, lookup-insert,
  beq_refl, bytes_eq, eqb, if◌then◌else◌, length, length-append, ap, arith,
}
use cpu_process_exporter.Scan.State.{Process, ReadErrs, Tally, St, Env, errs_of, add_err, count_err}
use cpu_process_exporter.Scan.Loop.{read_all, add_process}
use cpu_process_exporter.Scan.Read.{read_process}
use cpu_process_exporter.Scan.Rule.{cost, Rel, Rules, read_process-Keeps}

errs_of-add_err :
    (file g : Bytes) (m : ReadErrs)
    → errs_of g (add_err file m) ≡ (if eqb file g then suc (errs_of file m) else errs_of g m)
unfolding add_err
errs_of-add_err file g m = ground (arith, lookup-insert file g (suc (errs_of file m)) m)

-- The processes left out: ignored, vanished, denied, or with a stat file that could not be read.
abbrev pub left_out : {F : Type 0} → Tally F → ℕ
left_out r = r.ignored + r.vanished + r.denied + errs_of (codes "stat") r.read_errs

-- `scanned` and `procs` are left to the loop.
abbrev Counts : {F : Type 0} → Rel F
Counts s n s' =
    (left_out s'.res ≡ left_out s.res + n)
    × (s'.res.scanned ≡ s.res.scanned)
    × (s'.res.procs ≡ s.res.procs)

Counts-noted :
    {F : Type 0} (s : St F) (file : Bytes)
    → eqb file (codes "stat") ≡ false
    → Counts s 0 (record s { res = count_err file s.res })
Counts-noted s file h = ground (arith, errs_of-add_err file (codes "stat") s.res.read_errs)

Counts-stat :
    {F : Type 0} (s : St F) → Counts s 1 (record s { res = count_err (codes "stat") s.res })
Counts-stat s =
    ground (
      arith,
      errs_of-add_err (codes "stat") (codes "stat") s.res.read_errs,
      beq_refl (codes "stat"),
    )

counting : {F : Type 0} → Rules {F = F} Counts Counts
counting = record {
  steps = record {
    refl_r = λ s. (omega arith, refl, refl);
    vanished_r = λ s. (omega arith, refl, refl);
    noted_r = Counts-noted;
    users_r = λ s users. (omega arith, refl, refl);
  };
  trans_t = λ c s s' s'' h k. ground arith;
  stop_t = λ s s' h. h;
  denied_r = λ s. (omega arith, refl, refl);
  stat_r = Counts-stat;
  lookup_r = λ s pid ticks. (omega arith, refl, refl);
  ignored_t = λ s pid. (omega arith, refl, refl);
  put_t = λ s pid cur. (omega arith, refl, refl);
}

module _ {F R M : Type 0} (env : Env F R M) where
  read_process-Counts :
      (pid : ℕ) (s : St F) → Counts s (cost (read_process env pid s).0) (read_process env pid s).1
  read_process-Counts pid = (read_process-Keeps Counts Counts counting env pid).at

  -- What the loop keeps over `n` processes: all are counted, and `scanned` counts `procs`.
  abbrev pub Tallied : St F → ℕ → St F → Type 0
  Tallied s n s' =
      (s'.res.scanned + left_out s'.res ≡ s.res.scanned + left_out s.res + n)
      × (length s'.res.procs + s.res.scanned ≡ length s.res.procs + s'.res.scanned)

  add_process-Tallied :
      (s : St F) (o : Option (Process F)) (s' : St F)
      → Counts s (cost o) s'
      → Tallied s 1 (add_process env (o, s'))
  add_process-Tallied s none s' h = (omega arith, omega (arith, ap length h.2))
  add_process-Tallied s (some p) s' h =
      (omega arith, omega (arith, ap length h.2, length-append s'.res.procs (p ∷ [])))

  pub read_all-Tallied : (pids : List ℕ) (s : St F) → Tallied s (length pids) (read_all env pids s)
  unfolding read_all
  read_all-Tallied [] s = (omega arith, omega arith)
  read_all-Tallied (pid ∷ pids) s =
      let first =
        add_process-Tallied s (read_process env pid s).0 (read_process env pid s).1
          (read_process-Counts pid s) in
      let later = read_all-Tallied pids (add_process env (read_process env pid s)) in
      (omega arith, omega arith)
