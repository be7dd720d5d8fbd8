-- ===== src/Metrics/Series.antt =====
-- The series of a scrape. The client library refuses a scrape in which a series comes twice.
use cpu_process_exporter.Base.{
  ℕ, suc, ◌+◌, ◌*◌, ◌≤◌, ◌<◌, ◌≡◌, ◌≢◌, refl, sym, ap, ap₂, subst, ◌∙◌, Bool, true, false, ◌||◌,
  List, [], ◌∷◌, ◌++◌, map, Bytes, codes, eqb, All, All-append, All-map, Bool-cases, inl, inr, ltb,
  if◌then◌else◌, arith, Distinct, Distinct-append, Disjoint-of, ascending, ascending-All,
  ascending-Distinct, keys, map-append, All-of-map, take,
}
use cpu_process_exporter.Base.Int.{pos, ltb_ℤ}
use cpu_process_exporter.Float.{Float64}
use cpu_process_exporter.Procfs.System.{System}
use cpu_process_exporter.Aggregate.Types.{Key, Sample}
use cpu_process_exporter.Aggregate.Keys.{sample_key}
use cpu_process_exporter.Metrics.Descs.{
  desc_name, desc_num_procs, desc_num_threads, desc_rss, desc_vsize, desc_shared, desc_data,
  desc_pss, desc_swap_pss, desc_swap, desc_pss_coverage, desc_worst_fd, desc_open_fds, desc_max_fds,
  desc_oldest_start, desc_states, desc_fd_coverage, desc_io_coverage, desc_cpu_seconds,
  desc_minor_faults, desc_major_faults, desc_ctx_switches, desc_read_bytes, desc_write_bytes,
}
use cpu_process_exporter.Metrics.Emitted.{collect_sample-All}
use cpu_process_exporter.Metrics.Collect.{
  Metric, pss_metrics, fd_metrics, state_metrics, io_metrics, gauges, counters, collect_sample,
  collect_samples,
}

-- A series is identified by the name and the label values.
abbrev pub Series : Type 0
Series = Bytes × List Bytes

abbrev pub series : {F : Type 0} → Metric F → Series
series m = (desc_name m.desc, m.label_values)

-- The names in the order of Collect.
abbrev emitted : List Bytes
emitted = map desc_name (
    desc_num_procs ∷ desc_num_threads ∷ desc_rss ∷ desc_vsize ∷ desc_shared ∷ desc_data ∷ desc_swap
    ∷ desc_oldest_start ∷ desc_pss_coverage ∷ desc_pss ∷ desc_swap_pss ∷ desc_fd_coverage
    ∷ desc_io_coverage ∷ desc_open_fds ∷ desc_max_fds ∷ desc_worst_fd ∷ desc_states
    ∷ desc_cpu_seconds ∷ desc_minor_faults ∷ desc_major_faults ∷ desc_ctx_switches ∷ desc_read_bytes
    ∷ desc_write_bytes ∷ [])

abbrev index_in : Bytes → List Bytes → ℕ
index_in n [] = 0
index_in n (x ∷ xs) = if eqb x n then 0 else suc (index_in n xs)

abbrev is_second : List Bytes → Bool
is_second (n ∷ (u ∷ (x ∷ more))) = eqb x (codes "system") || eqb x (codes "involuntary")
is_second labels = false

-- Where a series stands in the metrics of its group; two places are left for each name.
abbrev place : Series → ℕ
place (n, labels) = 2 * index_in n emitted + (if is_second labels then 1 else 0)

module _ {F : Type 0} (fl : Float64 F) (sys : System F) where
  gauges-ascending : (s : Sample F) → ascending place 0 32 (map series (gauges fl sys s)) ≡ true
  unfolding gauges pss_metrics fd_metrics desc_name eqb
  gauges-ascending s = elim (Bool-cases (ltb 0 s.pss_read)) [
    | inl p ↦ elim (Bool-cases (ltb 0 s.fds_read)) [
      | inl f ↦ elim (Bool-cases (ltb_ℤ (pos 0) s.max_fds)) [
        | inl m ↦ rw (p, f, m) refl
        | inr m ↦ rw (p, f, m) refl
      ]
      | inr f ↦ rw (p, f) refl
    ]
    | inr p ↦ elim (Bool-cases (ltb 0 s.fds_read)) [
      | inl f ↦ elim (Bool-cases (ltb_ℤ (pos 0) s.max_fds)) [
        | inl m ↦ rw (p, f, m) refl
        | inr m ↦ rw (p, f, m) refl
      ]
      | inr f ↦ rw (p, f) refl
    ]
  ]

  counters-ascending :
      (s : Sample F) → ascending place 34 46 (map series (counters fl sys s)) ≡ true
  unfolding counters io_metrics desc_name eqb
  counters-ascending s = elim (Bool-cases (ltb 0 s.io_read)) [
    | inl h ↦ rw h refl
    | inr h ↦ rw h refl
  ]

  -- The series of the states, which stand between the others.
  state_metrics-place :
      (k : Key) (states : List (Bytes × ℕ))
      → All (λ x. (32 ≤ place x) × (place x < 34)) (map series (state_metrics fl sys k states))
  unfolding state_metrics desc_name eqb
  state_metrics-place k [] = tt
  state_metrics-place k ((state, count) ∷ states) = (
    elim (Bool-cases (is_second (k.name ∷ k.user ∷ state ∷ []))) [
      | inl h ↦ rw h (ground arith)
      | inr h ↦ rw h (ground arith)
    ],
    state_metrics-place k states,
  )

  state_metrics-apart :
      (k : Key) (state : Bytes) (states : List (Bytes × ℕ))
      → All (λ other. state ≢ other) (keys states)
      → All
          (λ y. (desc_name desc_states, k.name ∷ k.user ∷ state ∷ []) ≢ y)
          (map series (state_metrics fl sys k states))
  unfolding state_metrics
  state_metrics-apart k state [] h = tt
  state_metrics-apart k state ((other, count) ∷ states) h =
      (λ same. h.0 (ground (arith, same)), state_metrics-apart k state states h.1)

  state_metrics-Distinct :
      (k : Key) (states : List (Bytes × ℕ))
      → Distinct (keys states)
      → Distinct (map series (state_metrics fl sys k states))
  unfolding state_metrics
  state_metrics-Distinct k [] h = tt
  state_metrics-Distinct k ((state, count) ∷ states) h =
      (state_metrics-apart k state states h.0, state_metrics-Distinct k states h.1)

  collect_sample_parts :
      (s : Sample F)
      → map series (collect_sample fl sys s)
        ≡ map series (gauges fl sys s)
          ++ (map series (state_metrics fl sys s.key s.state_names)
              ++ map series (counters fl sys s))
  unfolding collect_sample
  collect_sample_parts s =
      map-append series (gauges fl sys s) _
      ∙ ap (λ more. map series (gauges fl sys s) ++ more)
          (map-append series (state_metrics fl sys s.key s.state_names) _)

  collect_sample-Distinct :
      (s : Sample F)
      → Distinct (keys s.state_names)
      → Distinct (map series (collect_sample fl sys s))
  collect_sample-Distinct s h =
      let before = gauges-ascending s in
      let after = counters-ascending s in
      let states = state_metrics-place s.key s.state_names in
      rw (collect_sample_parts s) (
        Distinct-append _ _ (ascending-Distinct place 0 32 _ before)
          (Distinct-append _ _ (state_metrics-Distinct s.key s.state_names h)
            (ascending-Distinct place 34 46 _ after)
            (Disjoint-of (λ x y low high same. omega (arith, low.1, high.0, ap place same)) _ _
              states (ascending-All place 34 46 _ after)))
          (Disjoint-of (λ x y low high same. omega (arith, low.1, high, ap place same)) _ _
            (ascending-All place 0 32 _ before)
            (All-append (λ y. 32 ≤ place y) _ _ (All-map (λ y at. at.0) _ states)
              (All-map (λ y at. omega (arith, at.0)) _ (ascending-All place 34 46 _ after)))))

  -- The labels of the group come first.
  abbrev Begins : Key → Series → Type 0
  Begins k x = take 2 x.1 ≡ k.name ∷ k.user ∷ []

  abbrev Avoids : Key → Series → Type 0
  Avoids k x = take 2 x.1 ≢ k.name ∷ k.user ∷ []

  same_key : (j k : Key) → (j.name ∷ j.user ∷ []) ≡ k.name ∷ k.user ∷ [] → k ≡ j
  same_key j k h =
      ap₂ (λ n u. record { name = n; user = u }) (ground (arith, h)) (ground (arith, h))

  collect_sample-Begins : (s : Sample F) → All (Begins s.key) (map series (collect_sample fl sys s))
  collect_sample-Begins s =
      All-of-map series (Begins s.key) _
        (collect_sample-All fl sys (λ m. Begins s.key (series m)) s (λ d t v more is. refl))

  collect_sample-Avoids :
      (k : Key) (s : Sample F) → k ≢ s.key → All (Avoids k) (map series (collect_sample fl sys s))
  collect_sample-Avoids k s other = All-of-map series (Avoids k) _ (
      collect_sample-All fl sys (λ m. Avoids k (series m)) s
        (λ d t v more is same. other (same_key s.key k same)))

  collect_samples_parts :
      (s : Sample F) (samples : List (Sample F))
      → map series (collect_samples fl sys (s ∷ samples))
        ≡ map series (collect_sample fl sys s) ++ map series (collect_samples fl sys samples)
  unfolding collect_samples
  collect_samples_parts s samples =
      map-append series (collect_sample fl sys s) (collect_samples fl sys samples)

  collect_samples-Avoids :
      (k : Key) (samples : List (Sample F))
      → All (λ j. k ≢ j) (map sample_key samples)
      → All (Avoids k) (map series (collect_samples fl sys samples))
  unfolding collect_samples
  collect_samples-Avoids k [] h = tt
  collect_samples-Avoids k (s ∷ samples) h =
      subst (All (Avoids k)) (sym (collect_samples_parts s samples)) (
        All-append (Avoids k) (map series (collect_sample fl sys s)) _
          (collect_sample-Avoids k s h.0) (collect_samples-Avoids k samples h.1))

  -- Where no two samples have the same key, and none has a state name twice, no series comes twice.
  pub collect_samples-Distinct :
      (samples : List (Sample F))
      → Distinct (map sample_key samples)
      → All (λ s. Distinct (keys s.state_names)) samples
      → Distinct (map series (collect_samples fl sys samples))
  unfolding collect_samples
  collect_samples-Distinct [] h states = tt
  collect_samples-Distinct (s ∷ samples) h states =
      subst Distinct (sym (collect_samples_parts s samples)) (
        Distinct-append (map series (collect_sample fl sys s)) _
          (collect_sample-Distinct s states.0) (collect_samples-Distinct samples h.1 states.1)
          (Disjoint-of (λ x y of other same. other (sym (ap (λ z. take 2 z.1) same) ∙ of))
            (map series (collect_sample fl sys s)) _ (collect_sample-Begins s)
            (collect_samples-Avoids s.key samples h.0)))
