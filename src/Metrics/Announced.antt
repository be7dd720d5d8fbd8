-- ===== src/Metrics/Announced.antt =====
-- What the client library asks of a collector: a metric whose description was not announced is an
-- error of the scrape, and one with a wrong number of label values a panic.
use cpu_process_exporter.Base.{
  ◌≡◌, refl, Bool, true, List, [], ◌∷◌, Option, none, some, eqb, any, length, All, All-append,
}
use cpu_process_exporter.Float.{Float64}
use cpu_process_exporter.Procfs.System.{System}
use cpu_process_exporter.Aggregate.Types.{Sample, Snapshot}
use cpu_process_exporter.Metrics.Descs.{
  Desc, desc_name, desc_labels, describe, desc_num_procs, desc_num_threads, desc_rss, desc_vsize,
  desc_shared, desc_data, desc_pss, desc_swap_pss, desc_swap, desc_pss_coverage, desc_worst_fd,
  desc_open_fds, desc_max_fds, desc_oldest_start, desc_states, desc_fd_coverage, desc_io_coverage,
  desc_cpu_seconds, desc_minor_faults, desc_major_faults, desc_ctx_switches, desc_read_bytes,
  desc_write_bytes,
}
use cpu_process_exporter.Metrics.Collect.{Metric, collect_sample, collect_samples, collect}
use cpu_process_exporter.Metrics.Emitted.{collect_sample-All}

abbrev pub is_announced : Desc → Bool
is_announced d = any (λ e. eqb (desc_name e) (desc_name d)) describe

-- The description is announced, and there is a value for each of its labels.
abbrev pub IsValid : {F : Type 0} → Metric F → Type 0
IsValid m = (is_announced m.desc ≡ true) × (length m.label_values ≡ length (desc_labels m.desc))

announced : (d : Desc) → is_announced d ≡ true
unfolding describe desc_name eqb
announced desc_num_procs = refl
announced desc_num_threads = refl
announced desc_rss = refl
announced desc_vsize = refl
announced desc_shared = refl
announced desc_data = refl
announced desc_pss = refl
announced desc_swap_pss = refl
announced desc_swap = refl
announced desc_pss_coverage = refl
announced desc_worst_fd = refl
announced desc_open_fds = refl
announced desc_max_fds = refl
announced desc_oldest_start = refl
announced desc_states = refl
announced desc_fd_coverage = refl
announced desc_io_coverage = refl
announced desc_cpu_seconds = refl
announced desc_minor_faults = refl
announced desc_major_faults = refl
announced desc_ctx_switches = refl
announced desc_read_bytes = refl
announced desc_write_bytes = refl

module _ {F : Type 0} (fl : Float64 F) (sys : System F) where
  collect_samples-IsValid :
      (samples : List (Sample F)) → All IsValid (collect_samples fl sys samples)
  unfolding collect_samples
  collect_samples-IsValid [] = tt
  collect_samples-IsValid (s ∷ samples) =
      All-append IsValid (collect_sample fl sys s) _
        (collect_sample-All fl sys IsValid s (λ d t v more is. (announced d, is)))
        (collect_samples-IsValid samples)

  -- Every metric that Collect sends, whatever the snapshot, has a description that Describe announces,
  -- and as many label values as the description has labels.
  pub collect-IsValid : (snap : Option (Snapshot F)) → All IsValid (collect fl sys snap)
  unfolding collect
  collect-IsValid none = tt
  collect-IsValid (some snap) = collect_samples-IsValid snap.samples
