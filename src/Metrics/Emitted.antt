-- ===== src/Metrics/Emitted.antt =====
-- An induction over what Collect sends for a group: every metric has the labels of the group first, and
-- as many values as its description has labels.
use cpu_process_exporter.Base.{
  ℕ, suc, ◌≡◌, refl, Bool, true, false, List, [], ◌∷◌, Bytes, length, All, All-append, ltb,
  if◌then◌else◌,
}
use cpu_process_exporter.Base.Int.{pos, ltb_ℤ}
use cpu_process_exporter.Float.{Float64}
use cpu_process_exporter.Procfs.System.{System}
use cpu_process_exporter.Aggregate.Types.{Key, Sample}
use cpu_process_exporter.Metrics.Descs.{Desc, desc_labels}
use cpu_process_exporter.Metrics.Collect.{
  ValueType, Metric, pss_metrics, fd_metrics, state_metrics, io_metrics, gauges, counters,
  collect_sample,
}

All-if :
    {A : Type 0} (P : A → Type 0) (b : Bool) (xs : List A) → All P xs → All P (if b then xs else [])
All-if P true xs h = h
All-if P false xs h = tt

-- A predicate that holds of every metric with the labels of the group and the right number of values.
abbrev pub Covers : {F : Type 0} → Key → (Metric F → Type 0) → Type 0
Covers {F} k P =
    (d : Desc) (t : ValueType) (v : F) (more : List Bytes)
    → suc (suc (length more)) ≡ length (desc_labels d)
    → P (record { desc = d; value_type = t; value = v; label_values = k.name ∷ k.user ∷ more })

module _ {F : Type 0} (fl : Float64 F) (sys : System F) (P : Metric F → Type 0) where
  pub state_metrics-All :
      (k : Key) (states : List (Bytes × ℕ)) → Covers k P → All P (state_metrics fl sys k states)
  unfolding state_metrics desc_labels
  state_metrics-All k [] h = tt
  state_metrics-All k ((state, count) ∷ states) h = (h _ _ _ _ refl, state_metrics-All k states h)

  pss_metrics-All : (s : Sample F) → Covers s.key P → All P (pss_metrics fl sys s)
  unfolding pss_metrics desc_labels
  pss_metrics-All s h = All-if P (ltb 0 s.pss_read) _ (h _ _ _ _ refl, (h _ _ _ _ refl, tt))

  fd_metrics-All : (s : Sample F) → Covers s.key P → All P (fd_metrics fl sys s)
  unfolding fd_metrics desc_labels
  fd_metrics-All s h =
      All-if P (ltb 0 s.fds_read) _ (
        h _ _ _ _ refl,
        All-if P (ltb_ℤ (pos 0) s.max_fds) _ (h _ _ _ _ refl, (h _ _ _ _ refl, tt)),
      )

  io_metrics-All : (s : Sample F) → Covers s.key P → All P (io_metrics fl sys s)
  unfolding io_metrics desc_labels
  io_metrics-All s h = All-if P (ltb 0 s.io_read) _ (h _ _ _ _ refl, (h _ _ _ _ refl, tt))

  gauges-All : (s : Sample F) → Covers s.key P → All P (gauges fl sys s)
  unfolding gauges desc_labels
  gauges-All s h = (
    h _ _ _ _ refl,
    (
      h _ _ _ _ refl,
      (
        h _ _ _ _ refl,
        (
          h _ _ _ _ refl,
          (
            h _ _ _ _ refl,
            (
              h _ _ _ _ refl,
              (
                h _ _ _ _ refl,
                (
                  h _ _ _ _ refl,
                  (
                    h _ _ _ _ refl,
                    All-append P (pss_metrics fl sys s) _ (pss_metrics-All s h)
                        (h _ _ _ _ refl, (h _ _ _ _ refl, fd_metrics-All s h)),
                  ),
                ),
              ),
            ),
          ),
        ),
      ),
    ),
  )

  counters-All : (s : Sample F) → Covers s.key P → All P (counters fl sys s)
  unfolding counters desc_labels
  counters-All s h = (
    h _ _ _ _ refl,
    (
      h _ _ _ _ refl,
      (h _ _ _ _ refl, (h _ _ _ _ refl, (h _ _ _ _ refl, (h _ _ _ _ refl, io_metrics-All s h)))),
    ),
  )

  pub collect_sample-All : (s : Sample F) → Covers s.key P → All P (collect_sample fl sys s)
  unfolding collect_sample
  collect_sample-All s h = All-append P (gauges fl sys s) _ (gauges-All s h) (
      All-append P (state_metrics fl sys s.key s.state_names) _
        (state_metrics-All s.key s.state_names h) (counters-All s h))
