-- ===== src/Metrics/Registry.antt =====
-- The registry of internal/metrics/metrics.go. The counters and gauges are the client library's; what
-- the code does to them is kept as the calls that it makes, the newest last. Each scrape reads the
-- snapshot pointer once.
use cpu_process_exporter.Base.{
  ℕ, codes, List, [], ◌∷◌, ◌++◌, Option, none, some, Bytes, if◌then◌else◌, length,
}
use cpu_process_exporter.Base.Int.{ℤ}
use cpu_process_exporter.Float.{Float64}
use cpu_process_exporter.Procfs.System.{System}
use cpu_process_exporter.Scan.State.{ReadErrs}
use cpu_process_exporter.Aggregate.Types.{Snapshot}
use cpu_process_exporter.Metrics.Collect.{Metric, collect}

-- The fields of Registry that are metrics of their own; the two vectors with their label values.
pub data Own : Type 0 where
  scan_duration scan_cpu scans_total overruns : Own
  read_errs : Bytes → Own
  last_scan procs_total procs_scan procs_ign procs_van procs_den : Own
  groups names_seen state_ents : Own
  build_info : Bytes → Bytes → Own

pub data Call (F : Type 0) : Type 0 where
  inc : Own → Call F
  observe add set : Own → F → Call F

-- What is registered: a metric by its name and labels, the collector of the groups, and two of the
-- client library.
pub data Collector : Type 0 where
  metric : Bytes → List Bytes → Collector
  group_collector go_collector process_collector : Collector

pub record Registry (F : Type 0) : Type 0 where
  pub registered : List Collector
  pub snap : Option (Snapshot F)
  pub calls : List (Call F)

-- Duration.Seconds and Time.Unix, of package time.
pub record Times (F : Type 0) : Type 0 where
  pub seconds : ℤ → F
  pub unix : ℕ → ℤ

module _ {F : Type 0} where
  -- The collectors in the order of MustRegister; all metrics are at zero.
  unfoldable pub new : Registry F
  new = record {
    registered =
        metric (codes "process_exporter_scan_duration_seconds") []
        ∷ metric (codes "process_exporter_scan_cpu_seconds_total") []
        ∷ metric (codes "process_exporter_scans_total") []
        ∷ metric (codes "process_exporter_scan_overruns_total") []
        ∷ metric (codes "process_exporter_read_errors_total") (codes "file" ∷ [])
        ∷ metric (codes "process_exporter_last_scan_timestamp_seconds") []
        ∷ metric (codes "process_exporter_procs_total") []
        ∷ metric (codes "process_exporter_procs_scanned") []
        ∷ metric (codes "process_exporter_procs_ignored") []
        ∷ metric (codes "process_exporter_procs_vanished") []
        ∷ metric (codes "process_exporter_procs_denied") []
        ∷ metric (codes "process_exporter_groups_total") []
        ∷ metric (codes "process_exporter_group_names_seen_total") []
        ∷ metric (codes "process_exporter_state_entries") []
        ∷ metric (codes "process_exporter_build_info") (codes "version" ∷ codes "goversion" ∷ [])
        ∷ group_collector
        ∷ go_collector
        ∷ process_collector
        ∷ [];
    snap = none;
    calls = [];
  }

  unfoldable pub snapshot : Registry F → Option (Snapshot F)
  snapshot r = r.snap

  unfoldable pub add_overrun : Registry F → Registry F
  add_overrun r = record r { calls = r.calls ++ (inc Own.overruns ∷ []) }

module _ {F : Type 0} (fl : Float64 F) where
  unfoldable pub set_build_info : Bytes → Bytes → Registry F → Registry F
  set_build_info version go_version r = record r {
    calls = r.calls ++ (Call.set (Own.build_info version go_version) (fl.of_nat 1) ∷ []);
  }

  -- The loop at the end of Publish.
  unfoldable pub add_read_errs : ReadErrs → List (Call F)
  add_read_errs [] = []
  add_read_errs ((file, n) ∷ errs) =
      Call.add (Own.read_errs file) (fl.of_nat n) ∷ add_read_errs errs

  unfoldable pub publish_calls : Times F → Snapshot F → List (Call F)
  unfolding add_read_errs
  publish_calls times s =
      (inc Own.scans_total ∷ observe Own.scan_duration (times.seconds s.duration) ∷ [])
      ++ ((if fl.ltb_f fl.zero_f s.self_cpu then Call.add Own.scan_cpu s.self_cpu ∷ [] else [])
          ++ (Call.set Own.last_scan (fl.of_int (times.unix s.scan_at))
              ∷ Call.set Own.procs_total (fl.of_nat s.procs_total)
              ∷ Call.set Own.procs_scan (fl.of_nat s.procs_scanned)
              ∷ Call.set Own.procs_ign (fl.of_nat s.procs_ignored)
              ∷ Call.set Own.procs_van (fl.of_nat s.procs_vanished)
              ∷ Call.set Own.procs_den (fl.of_nat s.procs_denied)
              ∷ Call.set Own.groups (fl.of_nat (length s.groups))
              ∷ Call.set Own.names_seen (fl.of_nat s.names_seen)
              ∷ Call.set Own.state_ents (fl.of_nat s.state_entries)
              ∷ add_read_errs s.read_errs))

  unfoldable pub publish : Times F → Snapshot F → Registry F → Registry F
  unfolding publish_calls
  publish times s r = record r { snap = some s; calls = r.calls ++ publish_calls times s }

  -- What the collector of the groups sends to a scrape, which reads the snapshot of the registry. The
  -- registry's own metrics and the client library's are gathered beside it.
  unfoldable pub scrape : System F → Registry F → List (Metric F)
  unfolding collect
  scrape sys r = collect fl sys r.snap
