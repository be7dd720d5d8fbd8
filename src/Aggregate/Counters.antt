-- ===== src/Aggregate/Counters.antt =====
-- The counters that a snapshot publishes, against those of the scan before.
use cpu_process_exporter.Base.{
  none, sym, subst, ◌%◌, Option, ℕ, ◌+◌, ◌<◌, ◌≡◌, refl, ap, ◌∙◌, Bool, ◌&&◌, List, [], ◌∷◌, map,
  some, lookup, if◌then◌else◌, arith, add64, u64_mod, Bool-cases, inl, inr,
}
use cpu_process_exporter.Base.Int.{ℤ}
use cpu_process_exporter.Float.{Float64}
use cpu_process_exporter.Procfs.System.{System, ticks_to_seconds}
use cpu_process_exporter.Scan.State.{Process}
use cpu_process_exporter.Scan.Loop.{ScanResult}
use cpu_process_exporter.Aggregate.Types.{Key, key_beq_iff, key_eq, Accum, Sample, Aggregator}
use cpu_process_exporter.Aggregate.Accums.{no_accum, add_process, fold_accums}
use cpu_process_exporter.Aggregate.Apply.{fold_groups, complete, apply}
use cpu_process_exporter.Aggregate.Groups.{members, add_processes, lookup-fold_accums}

pub data Counter : Type 0 where
  minor_faults major_faults voluntary involuntary read written : Counter

module _ {F : Type 0} where
  abbrev pub value : Counter → Accum F → ℕ
  value minor_faults acc = acc.minor_faults
  value major_faults acc = acc.major_faults
  value voluntary acc = acc.vol_ctx_sw
  value involuntary acc = acc.invol_ctx_sw
  value read acc = acc.read_bytes
  value written acc = acc.write_bytes

  -- Whether a process has a difference for the counter, and the difference.
  abbrev is_known : Counter → Process F → Bool
  is_known minor_faults p = p.have_deltas
  is_known major_faults p = p.have_deltas
  is_known voluntary p = p.have_deltas && p.have_status
  is_known involuntary p = p.have_deltas && p.have_status
  is_known read p = p.have_deltas && p.have_io
  is_known written p = p.have_deltas && p.have_io

  abbrev difference : Counter → Process F → ℕ
  difference minor_faults p = p.d_minor_faults
  difference major_faults p = p.d_major_faults
  difference voluntary p = p.d_vol_ctx_sw
  difference involuntary p = p.d_invol_ctx_sw
  difference read p = p.d_read_bytes
  difference written p = p.d_write_bytes

  -- What the processes add to the counter together.
  abbrev pub total : Counter → List (Process F) → ℕ
  total c [] = 0
  total c (p ∷ ps) = (if is_known c p then difference c p else 0) + total c ps

module _ {F : Type 0} (fl : Float64 F) (sys : System F) where
  add_process-value :
      (now : ℕ) (c : Counter) (p : Process F) (acc : Accum F)
      → value c (add_process fl sys now p acc)
        ≡ (if is_known c p then add64 (value c acc) (difference c p) else value c acc)
  unfolding add_process
  add_process-value now minor_faults p acc = ground arith
  add_process-value now major_faults p acc = ground arith
  add_process-value now voluntary p acc = ground arith
  add_process-value now involuntary p acc = ground arith
  add_process-value now read p acc = ground arith
  add_process-value now written p acc = ground arith

  -- One process adds its difference, where the sum fits.
  add_process-exact :
      (now : ℕ) (c : Counter) (p : Process F) (acc : Accum F) (more : ℕ)
      → value c acc + ((if is_known c p then difference c p else 0) + more) < u64_mod
      → value c (add_process fl sys now p acc)
        ≡ value c acc + (if is_known c p then difference c p else 0)
  unfolding add64
  add_process-exact now c p acc more fits =
      add_process-value now c p acc ∙ elim (Bool-cases (is_known c p)) [
        | inl known ↦ rw known (ground (arith, fits, known))
        | inr known ↦ rw known (omega arith)
      ]

  add_processes-value :
      (now : ℕ) (c : Counter) (acc : Accum F) (ps : List (Process F))
      → value c acc + total c ps < u64_mod
      → (acc' : Accum F) × (add_processes fl sys now (some acc) ps ≡ some acc')
        × (value c acc' ≡ value c acc + total c ps)
  add_processes-value now c acc [] fits = (acc, refl, omega arith)
  add_processes-value now c acc (p ∷ ps) fits =
      let now_is = add_process-exact now c p acc (total c ps) fits in
      let (acc', is, same) =
        add_processes-value now c (add_process fl sys now p acc) ps (omega (arith, now_is, fits)) in
      (acc', is, omega (arith, now_is, same))

  lookup-complete :
      (k : Key) (accums : List (Key × Accum F)) (groups : List (Key × Sample F)) (acc : Accum F)
      (s : Sample F)
      → lookup k accums ≡ some acc
      → lookup k (map (complete fl sys accums) groups) ≡ some s
      → s.accum ≡ acc
  unfolding complete lookup
  lookup-complete k accums [] acc s found h = cc
  lookup-complete k accums ((j, old) ∷ groups) acc s found h =
      ground (arith, key_beq_iff j k, lookup-complete k accums groups acc s found)

  -- Where a group has an accumulator and Apply publishes a sample for it, each of the six integer
  -- counters of the sample is that of the accumulator and the differences of the group's processes in
  -- this scan, if the sum is below 2^64.
  pub published_counters :
      (wall : ℕ) (res : ScanResult F) (retention : ℤ) (a : Aggregator F) (k : Key) (acc : Accum F)
      (s : Sample F) (c : Counter)
      → lookup k a.accums ≡ some acc
      → lookup k (apply fl sys wall res retention a).0.groups ≡ some s
      → value c acc + total c (members k res.tally.procs) < u64_mod
      → value c s.accum ≡ value c acc + total c (members k res.tally.procs)
  unfolding apply
  published_counters wall res retention a k acc s c before found fits =
      let now = (apply fl sys wall res retention a).0.scan_at in
      let (acc', is, same) = add_processes-value now c acc (members k res.tally.procs) fits in
      let held : lookup k (fold_accums fl sys now a.accums res.tally.procs) ≡ some acc' =
        lookup-fold_accums fl sys now k a.accums res.tally.procs
        ∙ ap (λ o. add_processes fl sys now o (members k res.tally.procs)) before
        ∙ is in
      ap (value c) (
        lookup-complete k (fold_accums fl sys now a.accums res.tally.procs)
          (fold_groups fl sys [] res.tally.procs) acc' s held found)
      ∙ same

  -- What a process adds to a time: nothing where it has no differences.
  abbrev pub times_after : (Process F → ℕ) → F → List (Process F) → F
  times_after ticks u [] = u
  times_after ticks u (p ∷ ps) =
      times_after ticks
        (if p.have_deltas then fl.add_f u (ticks_to_seconds fl sys (ticks p)) else u) ps

  -- The accumulator before a scan, or zeros.
  abbrev pub value_or : Counter → Option (Accum F) → ℕ
  value_or c none = 0
  value_or c (some acc) = value c acc

  abbrev pub time_or : (Accum F → F) → Option (Accum F) → F
  time_or time none = fl.zero_f
  time_or time (some acc) = time acc

  -- The accumulator `o'` is what the members make of `o`: without members it is `o` itself.
  abbrev pub Continues :
      ℕ → Counter → Option (Accum F) → List (Process F) → Option (Accum F) → Type 0
  Continues now c o [] o' = o' ≡ o
  Continues now c o (p ∷ ps) o' =
      (acc : Accum F) × (o' ≡ some acc)
      × (acc.last_seen ≡ now)
      × (value c acc ≡ (value_or c o + total c (p ∷ ps)) % u64_mod)
      × (acc.utime_seconds
          ≡ times_after (λ q. q.d_utime_ticks) (time_or (λ a. a.utime_seconds) o) (p ∷ ps))
      × (acc.stime_seconds
          ≡ times_after (λ q. q.d_stime_ticks) (time_or (λ a. a.stime_seconds) o) (p ∷ ps))

  add_process-times :
      (now : ℕ) (p : Process F) (acc : Accum F)
      → ((add_process fl sys now p acc).last_seen ≡ now)
        × ((add_process fl sys now p acc).utime_seconds ≡ (
            if p.have_deltas
            then fl.add_f acc.utime_seconds (ticks_to_seconds fl sys p.d_utime_ticks)
            else acc.utime_seconds))
        × ((add_process fl sys now p acc).stime_seconds ≡ (
            if p.have_deltas
            then fl.add_f acc.stime_seconds (ticks_to_seconds fl sys p.d_stime_ticks)
            else acc.stime_seconds))
  unfolding add_process
  add_process-times now p acc = ground arith

  add_process-word :
      (now : ℕ) (c : Counter) (p : Process F) (acc : Accum F)
      → value c acc < u64_mod
      → value c (add_process fl sys now p acc)
        ≡ (value c acc + (if is_known c p then difference c p else 0)) % u64_mod
  unfolding add64
  add_process-word now c p acc word =
      add_process-value now c p acc ∙ elim (Bool-cases (is_known c p)) [
        | inl known ↦ rw known refl
        | inr known ↦ rw known (omega (arith, word))
      ]

  more-Continues :
      (now : ℕ) (c : Counter) (p : Process F) (acc : Accum F) (ps : List (Process F))
      → value c acc < u64_mod
      → Continues now c (some acc) (p ∷ ps) (add_processes fl sys now (some acc) (p ∷ ps))
  more-Continues now c p acc [] word =
      let (seen, utime, stime) = add_process-times now p acc in
      (
        add_process fl sys now p acc,
        refl,
        seen,
        omega (arith, add_process-word now c p acc word),
        utime,
        stime,
      )
  more-Continues now c p acc (q ∷ ps) word =
      let one = add_process-word now c p acc word in
      let (seen, utime, stime) = add_process-times now p acc in
      let (last, is, last_seen, value_is, utime_is, stime_is) =
        more-Continues now c q (add_process fl sys now p acc) ps (omega (arith, one)) in
      (
        last,
        is,
        last_seen,
        omega (arith, one, value_is),
        utime_is ∙ ap (λ u. times_after (λ q. q.d_utime_ticks) u (q ∷ ps)) utime,
        stime_is ∙ ap (λ u. times_after (λ q. q.d_stime_ticks) u (q ∷ ps)) stime,
      )

  no_accum-value : (c : Counter) → value c (no_accum fl sys) ≡ 0
  no_accum-value minor_faults = refl
  no_accum-value major_faults = refl
  no_accum-value voluntary = refl
  no_accum-value involuntary = refl
  no_accum-value read = refl
  no_accum-value written = refl

  add_processes-Continues :
      (now : ℕ) (c : Counter) (o : Option (Accum F)) (ps : List (Process F))
      → value_or c o < u64_mod
      → Continues now c o ps (add_processes fl sys now o ps)
  add_processes-Continues now c o [] word = refl
  add_processes-Continues now c (some acc) (p ∷ ps) word = more-Continues now c p acc ps word
  add_processes-Continues now c none (p ∷ ps) word =
      let start = no_accum-value c in
      let (last, is, seen, value_is, utime, stime) =
        more-Continues now c p (no_accum fl sys) ps (omega (arith, start)) in
      (last, is, seen, omega (arith, start, value_is), utime, stime)

  -- After the loop of Apply, a group without a process in the scan has the accumulator that it had, and
  -- any other has one that was seen now: each of the six integer counters, if it was a word before, is
  -- that of the accumulator before, or 0 for a new group, and the differences of the group's processes,
  -- modulo 2^64, and the user and system time are those before, or zero, to which the seconds of the
  -- processes that have differences are added in their order.
  pub accums-Continues :
      (now : ℕ) (k : Key) (accums : List (Key × Accum F)) (ps : List (Process F)) (c : Counter)
      → value_or c (lookup k accums) < u64_mod
      → Continues now c
          (lookup k accums)
          (members k ps)
          (lookup k (fold_accums fl sys now accums ps))
  accums-Continues now k accums ps c word =
      subst (Continues now c (lookup k accums) (members k ps))
        (sym (lookup-fold_accums fl sys now k accums ps))
        (add_processes-Continues now c (lookup k accums) (members k ps) word)
