-- ===== src/Metrics/Collect.antt =====
-- The collector of internal/metrics/metrics.go: the metrics that a scrape sees, one list in the order
-- that they are sent. prometheus.MustNewConstMetric makes of its arguments one metric.
use cpu_process_exporter.Base.{
  ℕ, List, [], ◌∷◌, ◌++◌, Option, none, some, Bytes, codes, ltb, if◌then◌else◌,
}
use cpu_process_exporter.Base.Int.{pos, ltb_ℤ}
use cpu_process_exporter.Float.{Float64}
use cpu_process_exporter.Procfs.System.{System}
use cpu_process_exporter.Aggregate.Types.{Key, Sample, Snapshot}
use cpu_process_exporter.Aggregate.Apply.{fd_coverage, io_coverage, pss_coverage}
use cpu_process_exporter.Metrics.Descs.{
  Desc, desc_num_procs, desc_num_threads, desc_rss, desc_vsize, desc_shared, desc_data, desc_pss,
  desc_swap_pss, desc_swap, desc_pss_coverage, desc_worst_fd, desc_open_fds, desc_max_fds,
  desc_oldest_start, desc_states, desc_fd_coverage, desc_io_coverage, desc_cpu_seconds,
  desc_minor_faults, desc_major_faults, desc_ctx_switches, desc_read_bytes, desc_write_bytes,
}

pub data ValueType : Type 0 where
  gauge_value counter_value : ValueType

pub record Metric (F : Type 0) : Type 0 where
  pub desc : Desc
  pub value_type : ValueType
  pub value : F
  pub label_values : List Bytes

module _ {F : Type 0} (fl : Float64 F) (sys : System F) where
  -- The closures g and cnt; `more` are the label values behind the name and the user.
  abbrev pub g : Key → Desc → F → List Bytes → Metric F
  g k d v more = record {
    desc = d;
    value_type = gauge_value;
    value = v;
    label_values = k.name ∷ k.user ∷ more;
  }

  abbrev pub cnt : Key → Desc → F → List Bytes → Metric F
  cnt k d v more = record {
    desc = d;
    value_type = counter_value;
    value = v;
    label_values = k.name ∷ k.user ∷ more;
  }

  -- Omitted where no member's smaps was readable.
  unfoldable pub pss_metrics : Sample F → List (Metric F)
  pss_metrics s =
      if ltb 0 s.pss_read
      then g s.key desc_pss (fl.of_nat s.pss_bytes) []
        ∷ g s.key desc_swap_pss (fl.of_nat s.swap_pss_bytes) []
        ∷ []
      else []

  -- Omitted where no member's descriptors were readable.
  unfoldable pub fd_metrics : Sample F → List (Metric F)
  fd_metrics s =
      if ltb 0 s.fds_read
      then g s.key desc_open_fds (fl.of_int s.open_fds) []
        ∷ (if ltb_ℤ (pos 0) s.max_fds
            then g s.key desc_max_fds (fl.of_int s.max_fds) []
              ∷ g s.key desc_worst_fd s.worst_fd_ratio []
              ∷ []
            else [])
      else []

  unfoldable pub state_metrics : Key → List (Bytes × ℕ) → List (Metric F)
  state_metrics k [] = []
  state_metrics k ((state, count) ∷ states) =
      g k desc_states (fl.of_nat count) (state ∷ []) ∷ state_metrics k states

  unfoldable pub io_metrics : Sample F → List (Metric F)
  io_metrics s =
      if ltb 0 s.io_read
      then cnt s.key desc_read_bytes (fl.of_nat s.accum.read_bytes) []
        ∷ cnt s.key desc_write_bytes (fl.of_nat s.accum.write_bytes) []
        ∷ []
      else []

  -- What comes before the states, and what behind them.
  unfoldable pub gauges : Sample F → List (Metric F)
  unfolding pss_metrics fd_metrics
  gauges s =
      (g s.key desc_num_procs (fl.of_nat s.num_procs) []
        ∷ g s.key desc_num_threads (fl.of_int s.threads) []
        ∷ g s.key desc_rss (fl.of_nat s.rss_bytes) []
        ∷ g s.key desc_vsize (fl.of_nat s.vsize_bytes) []
        ∷ g s.key desc_shared (fl.of_nat s.shared_bytes) []
        ∷ g s.key desc_data (fl.of_nat s.data_bytes) []
        ∷ g s.key desc_swap (fl.of_nat s.swap_bytes) []
        ∷ g s.key desc_oldest_start s.oldest_start []
        ∷ g s.key desc_pss_coverage (pss_coverage fl sys s) []
        ∷ [])
      ++ (pss_metrics s
          ++ (g s.key desc_fd_coverage (fd_coverage fl sys s) []
              ∷ g s.key desc_io_coverage (io_coverage fl sys s) []
              ∷ fd_metrics s))

  unfoldable pub counters : Sample F → List (Metric F)
  unfolding io_metrics
  counters s =
      cnt s.key desc_cpu_seconds s.accum.utime_seconds (codes "user" ∷ [])
      ∷ cnt s.key desc_cpu_seconds s.accum.stime_seconds (codes "system" ∷ [])
      ∷ cnt s.key desc_minor_faults (fl.of_nat s.accum.minor_faults) []
      ∷ cnt s.key desc_major_faults (fl.of_nat s.accum.major_faults) []
      ∷ cnt s.key desc_ctx_switches (fl.of_nat s.accum.vol_ctx_sw) (codes "voluntary" ∷ [])
      ∷ cnt s.key desc_ctx_switches (fl.of_nat s.accum.invol_ctx_sw) (codes "involuntary" ∷ [])
      ∷ io_metrics s

  -- One round of the loop of Collect.
  unfoldable pub collect_sample : Sample F → List (Metric F)
  unfolding gauges state_metrics counters
  collect_sample s = gauges s ++ (state_metrics s.key s.state_names ++ counters s)

  unfoldable pub collect_samples : List (Sample F) → List (Metric F)
  unfolding collect_sample
  collect_samples [] = []
  collect_samples (s ∷ samples) = collect_sample s ++ collect_samples samples

  unfoldable pub collect : Option (Snapshot F) → List (Metric F)
  unfolding collect_samples
  collect none = []
  collect (some snap) = collect_samples snap.samples
