-- ===== src/Api/Order.antt =====
-- The order of the groups that /groups answers.
use cpu_process_exporter.Base.{
  ◌≤◌, ◌≢◌, true, false, [], ◌∷◌, All, All-map, subst, eqb_iff, arith, ◌≡◌, refl, Bool, ◌||◌, List,
  some, Bytes, codes, eqb, ltb, ltb_bytes, Bool-cases, inl, inr, IsStrictWeak, IsOrdered,
  along-IsStrictWeak, against-IsStrictWeak, ltb-IsStrictWeak, ltb_ℤ-IsStrictWeak,
  ltb_bytes-IsStrictWeak,
}
use cpu_process_exporter.Base.Int.{ℤ, pos, negsuc, ltb_ℤ, leb_ℤ}
use cpu_process_exporter.Float.{Float64, OrderLaws}
use cpu_process_exporter.Aggregate.Types.{Sample, Snapshot}
use cpu_process_exporter.Metrics.Registry.{snapshot}
use cpu_process_exporter.Api.Handlers.{Std, Server, cpu_of, less_for, groups_answer, handle_groups}
use mathlib.Core.List.{Perm}

-- What package sort documents of Slice: for a strict weak order, the result has the same elements, and
-- none is less than one before it.
pub record SortLaws {F : Type 0} (std : Std F) : Type 0 where
  pub sorts :
      (less : Sample F → Sample F → Bool) (list : List (Sample F))
      → IsStrictWeak less
      → IsOrdered less (std.sort_slice less list) × Perm (std.sort_slice less list) list

-- Every element stands in the relation to every one behind it.
abbrev pub Pairwise : {A : Type 0} → (A → A → Type 0) → List A → Type 0
Pairwise P [] = Unit
Pairwise P (x ∷ xs) = All (P x) xs × Pairwise P xs

module _ {F : Type 0} (fl : Float64 F) (std : Std F) where
  -- `<` on floats is a strict weak order.
  float-IsStrictWeak : OrderLaws fl → IsStrictWeak fl.ltb_f
  float-IsStrictWeak laws = record {
    irrefl = laws.ltb_irrefl;
    trans = laws.ltb_trans;
    asym = laws.ltb_asym;
  }

  -- Each comparison that a query can ask for is one that sort.Slice takes.
  less_for-IsStrictWeak : (by : Bytes) → OrderLaws fl → IsStrictWeak (less_for fl std by)
  unfolding less_for
  less_for-IsStrictWeak by laws =
      elim (Bool-cases (eqb by (codes "rss") || eqb by (codes "memory"))) [
        | inl h ↦ rw h (against-IsStrictWeak ltb (λ (s : Sample F). s.rss_bytes) ltb-IsStrictWeak)
        | inr h ↦ rw h (elim (Bool-cases (eqb by (codes "procs"))) [
          | inl h ↦ rw h (against-IsStrictWeak ltb (λ (s : Sample F). s.num_procs) ltb-IsStrictWeak)
          | inr h ↦ rw h (elim (Bool-cases (eqb by (codes "fds"))) [
            | inl h ↦
                rw h (against-IsStrictWeak ltb_ℤ (λ (s : Sample F). s.open_fds) ltb_ℤ-IsStrictWeak)
            | inr h ↦ rw h (elim (Bool-cases (eqb by (codes "name"))) [
              | inl h ↦ rw h (
                  along-IsStrictWeak ltb_bytes (λ (s : Sample F). s.key.name)
                    ltb_bytes-IsStrictWeak)
              | inr h ↦
                  rw h (against-IsStrictWeak fl.ltb_f (cpu_of fl std) (float-IsStrictWeak laws))
            ])
          ])
        ])
      ]

  IsOrdered-Pairwise :
      (less : Sample F → Sample F → Bool) (P : Sample F → Sample F → Type 0)
      (list : List (Sample F))
      → ((x y : Sample F) → less y x ≡ false → P x y)
      → IsOrdered less list
      → Pairwise P list
  IsOrdered-Pairwise less P [] means h = tt
  IsOrdered-Pairwise less P (x ∷ xs) means h =
      (All-map (λ y. means x y) xs h.0, IsOrdered-Pairwise less P xs means h.1)

  -- The orders, by the query: the most memory first, the most processes, the most open descriptors, the
  -- names in ascending order, and for any other query the most time of user and system together.
  pub record IsSortedBy (by : Bytes) (list : List (Sample F)) : Type 0 where
    pub rss : by ≡ codes "rss" → Pairwise (λ x y. y.rss_bytes ≤ x.rss_bytes) list
    pub memory : by ≡ codes "memory" → Pairwise (λ x y. y.rss_bytes ≤ x.rss_bytes) list
    pub procs : by ≡ codes "procs" → Pairwise (λ x y. y.num_procs ≤ x.num_procs) list
    pub fds : by ≡ codes "fds" → Pairwise (λ x y. leb_ℤ y.open_fds x.open_fds ≡ true) list
    pub name : by ≡ codes "name" → Pairwise (λ x y. ltb_bytes y.key.name x.key.name ≡ false) list
    pub cpu :
        All
          (λ other. by ≢ other)
          (codes "rss" ∷ codes "memory" ∷ codes "procs" ∷ codes "fds" ∷ codes "name" ∷ [])
        → Pairwise
            (λ x y.
              fl.ltb_f
                (fl.add_f x.accum.utime_seconds x.accum.stime_seconds)
                (fl.add_f y.accum.utime_seconds y.accum.stime_seconds)
              ≡ false)
            list

  differs : (s t : Bytes) → s ≢ t → eqb s t ≡ false
  differs s t h = ground (arith, eqb_iff s t, h)

  int_order : (a b : ℤ) → ltb_ℤ b a ≡ false → leb_ℤ a b ≡ true
  int_order (pos a) (pos b) h = ground arith
  int_order (pos a) (negsuc b) h = ground arith
  int_order (negsuc a) (pos b) h = ground arith
  int_order (negsuc a) (negsuc b) h = ground arith

  less_for_other :
      (by : Bytes)
      → All
          (λ other. by ≢ other)
          (codes "rss" ∷ codes "memory" ∷ codes "procs" ∷ codes "fds" ∷ codes "name" ∷ [])
      → less_for fl std by ≡ (λ a b. fl.ltb_f (cpu_of fl std b) (cpu_of fl std a))
  unfolding less_for
  less_for_other by (rss, (memory, (procs, (fds, (name, _))))) =
      rw
        (
          differs by (codes "rss") rss,
          differs by (codes "memory") memory,
          differs by (codes "procs") procs,
          differs by (codes "fds") fds,
          differs by (codes "name") name,
        )
        refl

  less_for-IsSortedBy :
      (by : Bytes) (list : List (Sample F))
      → IsOrdered (less_for fl std by) list
      → IsSortedBy by list
  unfolding less_for eqb
  less_for-IsSortedBy by list h =
      let ordered : (q : Bytes) → by ≡ q → IsOrdered (less_for fl std q) list =
        λ q is. subst (λ b. IsOrdered (less_for fl std b) list) is h in
      record {
        rss = λ is.
            IsOrdered-Pairwise _ _ list (λ x y no. ground (arith, no)) (ordered (codes "rss") is);
        memory = λ is.
            IsOrdered-Pairwise _ _ list (λ x y no. ground (arith, no))
              (ordered (codes "memory") is);
        procs = λ is.
            IsOrdered-Pairwise _ _ list (λ x y no. ground (arith, no)) (ordered (codes "procs") is);
        fds = λ is.
            IsOrdered-Pairwise _ _ list (λ x y no. int_order y.open_fds x.open_fds no)
              (ordered (codes "fds") is);
        name = λ is. IsOrdered-Pairwise _ _ list (λ x y no. no) (ordered (codes "name") is);
        cpu = λ others.
            IsOrdered-Pairwise _ _ list (λ x y no. no)
              (subst (λ less. IsOrdered less list) (less_for_other by others) h);
      }

  -- Where there is a snapshot, /groups answers its samples, each once: for the query "rss" or "memory"
  -- those with the most resident memory first, for "procs" with the most processes, for "fds" with the
  -- most open descriptors, for "name" in ascending order of the names, and for any other query with the
  -- most user and system time together; given what sort.Slice promises for a strict weak order and that
  -- `<` on the times is one.
  pub groups-IsSortedBy :
      (by : Bytes) (s : Server F) (snap : Snapshot F)
      → OrderLaws fl
      → SortLaws std
      → snapshot s.deps.metrics ≡ some snap
      → (list : List (Sample F)) × (handle_groups fl std by s ≡ groups_answer fl std snap list)
        × IsSortedBy by list
        × Perm list snap.samples
  unfolding handle_groups
  groups-IsSortedBy by s snap laws sort is =
      let (ordered, same) =
        sort.sorts (less_for fl std by) snap.samples (less_for-IsStrictWeak by laws) in
      (
        std.sort_slice (less_for fl std by) snap.samples,
        rw is refl,
        less_for-IsSortedBy by _ ordered,
        same,
      )
