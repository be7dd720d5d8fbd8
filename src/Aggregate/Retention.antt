-- ===== src/Aggregate/Retention.antt =====
-- Retention of idle groups: which accumulators prune keeps.
use cpu_process_exporter.Base.{
  ℕ, ◌≡◌, refl, sym, ap, ◌∙◌, true, false, List, [], ◌∷◌, some, lookup, if◌then◌else◌, arith, ◌==◌,
}
use cpu_process_exporter.Base.Int.{ℤ, pos, ltb_ℤ}
use cpu_process_exporter.Float.{Float64}
use cpu_process_exporter.Procfs.System.{System}
use cpu_process_exporter.Scan.State.{Process}
use cpu_process_exporter.Scan.Loop.{ScanResult}
use cpu_process_exporter.Aggregate.Types.{Key, key_eq, Accum, Aggregator}
use cpu_process_exporter.Aggregate.Accums.{
  or_no_accum, add_process, fold_accums, prune_accums, prune, sub_time,
}
use cpu_process_exporter.Aggregate.Apply.{apply}
use cpu_process_exporter.Aggregate.Groups.{members, add_processes, lookup-fold_accums}

sub_time_same : (now : ℕ) → sub_time now now ≡ pos 0
unfolding sub_time
sub_time_same now = ground arith

module _ {F : Type 0} where
  prune_accums-lookup :
      (now : ℕ) (retention : ℤ) (k : Key) (m : List (Key × Accum F)) (acc : Accum F)
      → ltb_ℤ retention (sub_time now acc.last_seen) ≡ false
      → lookup k m ≡ some acc
      → lookup k (prune_accums now retention m).0 ≡ some acc
  unfolding prune_accums lookup
  prune_accums-lookup now retention k [] acc fresh h = cc
  prune_accums-lookup now retention k ((j, a) ∷ m) acc fresh h =
      ground (arith, prune_accums-lookup now retention k m acc fresh)

  prune-lookup :
      (now : ℕ) (retention : ℤ) (k : Key) (m : List (Key × Accum F)) (acc : Accum F)
      → acc.last_seen ≡ now
      → lookup k m ≡ some acc
      → lookup k (prune now retention m).0 ≡ some acc
  unfolding prune
  prune-lookup now retention k m acc seen h =
      ground (arith, sub_time_same now, prune_accums-lookup now retention k m acc)

  -- No accumulator that prune leaves, where there is a retention, is idle for longer than it.
  abbrev pub AllFresh : ℕ → ℤ → List (Key × Accum F) → Type 0
  AllFresh now retention [] = Unit
  AllFresh now retention ((k, acc) ∷ m) =
      (ltb_ℤ retention (sub_time now acc.last_seen) ≡ false) × AllFresh now retention m

  prune_accums-AllFresh :
      (now : ℕ) (retention : ℤ) (m : List (Key × Accum F))
      → AllFresh now retention (prune_accums now retention m).0
  unfolding prune_accums
  prune_accums-AllFresh now retention [] = tt
  prune_accums-AllFresh now retention ((k, acc) ∷ m) =
      ground (arith, prune_accums-AllFresh now retention m)

module _ {F : Type 0} (fl : Float64 F) (sys : System F) where
  add_process-last_seen :
      (now : ℕ) (p : Process F) (acc : Accum F) → (add_process fl sys now p acc).last_seen ≡ now
  unfolding add_process
  add_process-last_seen now p acc = ground arith

  add_processes-last_seen :
      (now : ℕ) (a : Accum F) (ps : List (Process F))
      → a.last_seen ≡ now
      → (acc : Accum F) × (add_processes fl sys now (some a) ps ≡ some acc) × (acc.last_seen ≡ now)
  add_processes-last_seen now a [] seen = (a, refl, seen)
  add_processes-last_seen now a (p ∷ ps) seen =
      add_processes-last_seen now (add_process fl sys now p a) ps (add_process-last_seen now p a)

  -- Whatever the retention, Apply keeps the accumulator of every group that has a process in the scan,
  -- with all that this scan has added to it.
  pub live_accum :
      (wall : ℕ) (res : ScanResult F) (retention : ℤ) (a : Aggregator F) (k : Key) (p : Process F)
      (ps : List (Process F))
      → members k res.tally.procs ≡ (p ∷ ps)
      → lookup k (apply fl sys wall res retention a).1.accums
        ≡ add_processes fl sys
            (apply fl sys wall res retention a).0.scan_at
            (lookup k a.accums)
            (members k res.tally.procs)
  unfolding apply
  live_accum wall res retention a k p ps live =
      let now = (if res.scan_at == 0 then wall else res.scan_at) in
      let (acc, is, seen) =
        add_processes-last_seen now
          (add_process fl sys now p (or_no_accum fl sys (lookup k a.accums))) ps
          (add_process-last_seen now p (or_no_accum fl sys (lookup k a.accums))) in
      let accums_is : lookup k (fold_accums fl sys now a.accums res.tally.procs) ≡ some acc =
        lookup-fold_accums fl sys now k a.accums res.tally.procs
        ∙ ap (add_processes fl sys now (lookup k a.accums)) live
        ∙ is in
      prune-lookup now retention k _ acc seen accums_is
      ∙ sym accums_is
      ∙ lookup-fold_accums fl sys now k a.accums res.tally.procs

  -- Where there is a retention, no accumulator that Apply leaves has been idle for longer than it.
  pub idle_accums :
      (wall : ℕ) (res : ScanResult F) (retention : ℤ) (a : Aggregator F)
      → ltb_ℤ (pos 0) retention ≡ true
      → AllFresh
          (apply fl sys wall res retention a).0.scan_at
          retention
          (apply fl sys wall res retention a).1.accums
  unfolding apply prune
  idle_accums wall res retention a on =
      let now = (if res.scan_at == 0 then wall else res.scan_at) in
      ground (
        arith,
        prune_accums-AllFresh now retention (fold_accums fl sys now a.accums res.tally.procs),
      )
