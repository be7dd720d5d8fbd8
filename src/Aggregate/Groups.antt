-- ===== src/Aggregate/Groups.antt =====
-- The loop of Apply against its meaning: the sample and the accumulator of a group depend on the
-- members of that group alone, taken in order.
use cpu_process_exporter.Base.{
  ℕ, suc, ◌+◌, ◌≤◌, ◌≡◌, refl, sym, ◌∙◌, Bool, ◌&&◌, List, [], ◌∷◌, Option, none, some, lookup,
  lookup-insert, if◌then◌else◌, length, count, arith, count-le-length,
}
use cpu_process_exporter.Base.Int.{pos, leb_ℤ}
use cpu_process_exporter.Float.{Float64}
use cpu_process_exporter.Procfs.System.{System}
use cpu_process_exporter.Scan.State.{Process}
use cpu_process_exporter.Aggregate.Types.{Key, key_beq, key_beq_iff, key_eq, Accum, Sample}
use cpu_process_exporter.Aggregate.Accums.{
  key_of, or_no_accum, add_process, accumulate, fold_accums,
}
use cpu_process_exporter.Aggregate.Apply.{
  new_sample, sample_or_new, add_member, add_to_groups, fold_groups,
}

module _ {F : Type 0} where
  -- The processes of one group, in the order of the scan.
  abbrev pub members : Key → List (Process F) → List (Process F)
  members k [] = []
  members k (p ∷ ps) = if key_beq (key_of p) k then p ∷ members k ps else members k ps

module _ {F : Type 0} (fl : Float64 F) (sys : System F) where
  -- A sample with the members of a group added one by one.
  abbrev pub add_members : Option (Sample F) → List (Process F) → Option (Sample F)
  add_members o [] = o
  add_members o (p ∷ ps) = add_members (some (add_member fl sys p (sample_or_new fl sys p o))) ps

  abbrev pub add_processes : ℕ → Option (Accum F) → List (Process F) → Option (Accum F)
  add_processes now o [] = o
  add_processes now o (p ∷ ps) =
      add_processes now (some (add_process fl sys now p (or_no_accum fl sys o))) ps

  -- The sample of a group is what its own members make of the one before, in order, whatever other
  -- processes come between.
  pub lookup-fold_groups :
      (k : Key) (groups : List (Key × Sample F)) (ps : List (Process F))
      → lookup k (fold_groups fl sys groups ps) ≡ add_members (lookup k groups) (members k ps)
  unfolding fold_groups add_to_groups
  lookup-fold_groups k groups [] = refl
  lookup-fold_groups k groups (p ∷ ps) = ground (
    arith,
    lookup-fold_groups k (add_to_groups fl sys groups p) ps,
    lookup-insert (key_of p) k
        (add_member fl sys p (sample_or_new fl sys p (lookup (key_of p) groups))) groups,
    key_beq_iff (key_of p) k,
  )

  -- The accumulator of a group is what its own members make of the one before, in order, whatever other
  -- processes come between.
  pub lookup-fold_accums :
      (now : ℕ) (k : Key) (accums : List (Key × Accum F)) (ps : List (Process F))
      → lookup k (fold_accums fl sys now accums ps)
        ≡ add_processes now (lookup k accums) (members k ps)
  unfolding fold_accums accumulate
  lookup-fold_accums now k accums [] = refl
  lookup-fold_accums now k accums (p ∷ ps) = ground (
    arith,
    lookup-fold_accums now k (accumulate fl sys now accums p) ps,
    lookup-insert (key_of p) k
        (add_process fl sys now p (or_no_accum fl sys (lookup (key_of p) accums))) accums,
    key_beq_iff (key_of p) k,
  )

  -- What one member adds to the four counts of a sample.
  abbrev pub has_fds : Process F → Bool
  has_fds p = p.have_fds && leb_ℤ (pos 0) p.open_fds

  add_member-counts :
      (p : Process F) (s : Sample F)
      → ((add_member fl sys p s).num_procs ≡ suc s.num_procs)
        × ((add_member fl sys p s).fds_read ≡ (if has_fds p then suc s.fds_read else s.fds_read))
        × ((add_member fl sys p s).io_read ≡ (if p.have_io then suc s.io_read else s.io_read))
        × ((add_member fl sys p s).pss_read ≡ (if p.have_pss then suc s.pss_read else s.pss_read))
  unfolding add_member
  add_member-counts p s = ground arith

  -- The counts of a sample that `ps` were added to, from those before.
  abbrev CountsUp : Sample F → List (Process F) → Sample F → Type 0
  CountsUp s ps s' =
      (s'.num_procs ≡ s.num_procs + length ps)
      × (s'.fds_read ≡ s.fds_read + count has_fds ps)
      × (s'.io_read ≡ s.io_read + count (λ p. p.have_io) ps)
      × (s'.pss_read ≡ s.pss_read + count (λ p. p.have_pss) ps)

  add_members-counts :
      (s : Sample F) (ps : List (Process F))
      → (s' : Sample F) × (add_members (some s) ps ≡ some s') × CountsUp s ps s'
  add_members-counts s [] = (s, refl, (omega arith, omega arith, omega arith, omega arith))
  add_members-counts s (p ∷ ps) =
      let (s', is, ups) = add_members-counts (add_member fl sys p s) ps in
      (s', is, ground (arith, ups, add_member-counts p s))

  group-counts-from :
      (k : Key) (ps : List (Process F)) {s : Sample F}
      → add_members none ps ≡ some s
      → (s.num_procs ≡ length ps)
        × (s.fds_read ≡ count has_fds ps)
        × (s.io_read ≡ count (λ p. p.have_io) ps)
        × (s.pss_read ≡ count (λ p. p.have_pss) ps)
  group-counts-from k [] h = cc
  group-counts-from k (p ∷ ps) h =
      let (s', is, ups) = add_members-counts (add_member fl sys p (new_sample fl sys p)) ps in
      ground (arith, ups, is, add_member-counts p (new_sample fl sys p))

  -- The sample of a group counts the processes of its name and user, and those of them whose
  -- descriptors, io and proportional memory are known.
  pub group_counts :
      (k : Key) (ps : List (Process F)) (s : Sample F)
      → lookup k (fold_groups fl sys [] ps) ≡ some s
      → (s.num_procs ≡ length (members k ps))
        × (s.fds_read ≡ count has_fds (members k ps))
        × (s.io_read ≡ count (λ p. p.have_io) (members k ps))
        × (s.pss_read ≡ count (λ p. p.have_pss) (members k ps))
  unfolding lookup
  group_counts k ps s h = group-counts-from k (members k ps) (sym (lookup-fold_groups k [] ps) ∙ h)

  -- No coverage count of a sample exceeds its number of processes.
  pub coverage_bounds :
      (k : Key) (ps : List (Process F)) (s : Sample F)
      → lookup k (fold_groups fl sys [] ps) ≡ some s
      → (s.fds_read ≤ s.num_procs) × (s.io_read ≤ s.num_procs) × (s.pss_read ≤ s.num_procs)
  coverage_bounds k ps s h =
      let counts = group_counts k ps s h in
      (
        omega (arith, counts, count-le-length has_fds (members k ps)),
        omega (arith, counts, count-le-length (λ p. p.have_io) (members k ps)),
        omega (arith, counts, count-le-length (λ p. p.have_pss) (members k ps)),
      )
