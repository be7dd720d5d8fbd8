-- ===== src/Aggregate/Keys.antt =====
-- The maps of Apply have one entry to a key, and a group is filed under the key of its sample.
use cpu_process_exporter.Base.{
  ℕ, ◌≡◌, refl, sym, ap₂, ◌∙◌, List, [], ◌∷◌, map, Option, none, some, Bytes, lookup, insert,
  nat_eq, bytes_eq, All, Distinct, keys, insert-Distinct, arith, Bool-cases, inl, inr,
}
use cpu_process_exporter.Base.Int.{ℤ}
use cpu_process_exporter.Float.{Float64}
use cpu_process_exporter.Procfs.System.{System}
use cpu_process_exporter.Scan.State.{Process}
use cpu_process_exporter.Scan.Loop.{ScanResult}
use cpu_process_exporter.Aggregate.Types.{
  Key, key_beq, key_beq_iff, key_eq, Accum, Sample, Aggregator,
}
use cpu_process_exporter.Aggregate.Accums.{key_of}
use cpu_process_exporter.Aggregate.Apply.{
  state_name, name_states, sample_or_new, add_member, add_to_groups, fold_groups, complete,
  sample_of, apply,
}

name_states-Distinct :
    (states : List (ℕ × ℕ)) (names : List (Bytes × ℕ))
    → Distinct (keys names)
    → Distinct (keys (name_states states names))
unfolding name_states
name_states-Distinct [] names h = h
name_states-Distinct ((st, n) ∷ states) names h =
    name_states-Distinct states (insert (state_name st) n names)
      (insert-Distinct (state_name st) n names h)

module _ {F : Type 0} where
  abbrev pub sample_key : Sample F → Key
  sample_key s = s.key

  abbrev IsFiled : Key × Sample F → Type 0
  IsFiled (k, s) = s.key ≡ k

  insert-IsFiled :
      (k : Key) (s : Sample F) (groups : List (Key × Sample F))
      → s.key ≡ k
      → All IsFiled groups
      → All IsFiled (insert k s groups)
  unfolding insert
  insert-IsFiled k s [] new h = (new, tt)
  insert-IsFiled k s ((j, old) ∷ groups) new h = elim (Bool-cases (key_beq j k)) [
    | inl same ↦ rw same (new ∙ sym ((key_beq_iff j k).0 same), h.1)
    | inr other ↦ rw other (h.0, insert-IsFiled k s groups new h.1)
  ]

  lookup-IsFiled :
      (k : Key) (groups : List (Key × Sample F)) (s : Sample F)
      → All IsFiled groups
      → lookup k groups ≡ some s
      → s.key ≡ k
  unfolding lookup
  lookup-IsFiled k [] s h found = cc
  lookup-IsFiled k ((j, old) ∷ groups) s h found =
      ground (arith, key_beq_iff j k, lookup-IsFiled k groups s, h)

module _ {F : Type 0} (fl : Float64 F) (sys : System F) where
  add_member-key : (p : Process F) (s : Sample F) → (add_member fl sys p s).key ≡ s.key
  unfolding add_member
  add_member-key p s = ground arith

  sample_or_new-key :
      (p : Process F) (groups : List (Key × Sample F)) (o : Option (Sample F))
      → All IsFiled groups
      → lookup (key_of p) groups ≡ o
      → (sample_or_new fl sys p o).key ≡ key_of p
  sample_or_new-key p groups none h found = refl
  sample_or_new-key p groups (some s) h found = lookup-IsFiled (key_of p) groups s h found

  fold_groups-IsFiled :
      (groups : List (Key × Sample F)) (ps : List (Process F))
      → Distinct (keys groups)
      → All IsFiled groups
      → Distinct (keys (fold_groups fl sys groups ps)) × All IsFiled (fold_groups fl sys groups ps)
  unfolding fold_groups add_to_groups
  fold_groups-IsFiled groups [] d h = (d, h)
  fold_groups-IsFiled groups (p ∷ ps) d h =
      let old = sample_or_new fl sys p (lookup (key_of p) groups) in
      fold_groups-IsFiled (add_to_groups fl sys groups p) ps
        (insert-Distinct (key_of p) (add_member fl sys p old) groups d)
        (insert-IsFiled (key_of p) (add_member fl sys p old) groups
          (add_member-key p old ∙ sample_or_new-key p groups (lookup (key_of p) groups) h refl) h)

  complete-keys :
      (accums : List (Key × Accum F)) (groups : List (Key × Sample F))
      → All IsFiled groups
      → map sample_key (map (sample_of fl sys) (map (complete fl sys accums) groups)) ≡ keys groups
  unfolding complete
  complete-keys accums [] h = refl
  complete-keys accums ((k, s) ∷ groups) h = ap₂ ◌∷◌ h.0 (complete-keys accums groups h.1)

  complete-names :
      (accums : List (Key × Accum F)) (groups : List (Key × Sample F))
      → All
          (λ s. Distinct (keys s.state_names))
          (map (sample_of fl sys) (map (complete fl sys accums) groups))
  unfolding complete
  complete-names accums [] = tt
  complete-names accums ((k, s) ∷ groups) =
      (name_states-Distinct s.states [] tt, complete-names accums groups)

  -- No two samples of the snapshot that Apply makes have the same key, and no sample has a state name
  -- twice.
  pub apply-Distinct :
      (wall : ℕ) (res : ScanResult F) (retention : ℤ) (a : Aggregator F)
      → Distinct (map sample_key (apply fl sys wall res retention a).0.samples)
        × All (λ s. Distinct (keys s.state_names)) (apply fl sys wall res retention a).0.samples
  unfolding apply
  apply-Distinct wall res retention a =
      let (d, filed) = fold_groups-IsFiled [] res.tally.procs tt tt in
      (rw (complete-keys _ (fold_groups fl sys [] res.tally.procs) filed) d, complete-names _ _)
