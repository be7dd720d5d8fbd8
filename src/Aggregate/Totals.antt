-- ===== src/Aggregate/Totals.antt =====
-- Every process of a scan is in exactly one group.
use cpu_process_exporter.Base.{
  ℕ, suc, ◌+◌, ◌≡◌, refl, List, [], ◌∷◌, Option, none, some, lookup, insert, length, arith,
}
use cpu_process_exporter.Float.{Float64}
use cpu_process_exporter.Procfs.System.{System}
use cpu_process_exporter.Scan.State.{Process}
use cpu_process_exporter.Aggregate.Types.{Key, key_eq, Sample}
use cpu_process_exporter.Aggregate.Accums.{key_of}
use cpu_process_exporter.Aggregate.Apply.{sample_or_new, add_member, add_to_groups, fold_groups}

module _ {F : Type 0} where
  -- The processes that the groups count together.
  abbrev pub procs_in : List (Key × Sample F) → ℕ
  procs_in [] = 0
  procs_in ((k, s) ∷ groups) = s.num_procs + procs_in groups

  abbrev procs_of : Option (Sample F) → ℕ
  procs_of none = 0
  procs_of (some s) = s.num_procs

  procs_in-insert :
      (k : Key) (s : Sample F) (groups : List (Key × Sample F))
      → procs_in (insert k s groups) + procs_of (lookup k groups) ≡ procs_in groups + s.num_procs
  unfolding insert lookup
  procs_in-insert k s [] = omega arith
  procs_in-insert k s ((j, old) ∷ groups) = ground (arith, procs_in-insert k s groups)

module _ {F : Type 0} (fl : Float64 F) (sys : System F) where
  add_member-procs :
      (p : Process F) (s : Sample F) → (add_member fl sys p s).num_procs ≡ suc s.num_procs
  unfolding add_member
  add_member-procs p s = ground arith

  sample_or_new-procs :
      (p : Process F) (o : Option (Sample F)) → (sample_or_new fl sys p o).num_procs ≡ procs_of o
  sample_or_new-procs p none = refl
  sample_or_new-procs p (some s) = refl

  add_to_groups-procs :
      (groups : List (Key × Sample F)) (p : Process F)
      → procs_in (add_to_groups fl sys groups p) ≡ suc (procs_in groups)
  unfolding add_to_groups
  add_to_groups-procs groups p =
      let s = sample_or_new fl sys p (lookup (key_of p) groups) in
      omega (
        arith,
        procs_in-insert (key_of p) (add_member fl sys p s) groups,
        add_member-procs p s,
        sample_or_new-procs p (lookup (key_of p) groups),
      )

  -- The loop counts every process once: the process counts of all groups add up to those before and the
  -- number of the processes.
  pub procs_in-fold_groups :
      (groups : List (Key × Sample F)) (ps : List (Process F))
      → procs_in (fold_groups fl sys groups ps) ≡ procs_in groups + length ps
  unfolding fold_groups
  procs_in-fold_groups groups [] = omega arith
  procs_in-fold_groups groups (p ∷ ps) =
      omega (
        arith,
        procs_in-fold_groups (add_to_groups fl sys groups p) ps,
        add_to_groups-procs groups p,
      )
