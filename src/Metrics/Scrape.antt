-- ===== src/Metrics/Scrape.antt =====
-- A scrape between two calls of Publish.
use cpu_process_exporter.Base.{ℕ, map, Distinct}
use cpu_process_exporter.Base.Int.{ℤ}
use cpu_process_exporter.Float.{Float64}
use cpu_process_exporter.Procfs.System.{System}
use cpu_process_exporter.Scan.Loop.{ScanResult}
use cpu_process_exporter.Aggregate.Types.{Aggregator}
use cpu_process_exporter.Aggregate.Apply.{apply}
use cpu_process_exporter.Aggregate.Keys.{apply-Distinct}
use cpu_process_exporter.Metrics.Series.{series, collect_samples-Distinct}
use cpu_process_exporter.Metrics.Registry.{Registry, Times, publish, scrape}

module _ {F : Type 0} (fl : Float64 F) (sys : System F) where
  -- Whatever a scan has read, what the collector of the groups sends to a scrape after the publication of
  -- its snapshot has no series, a name with its label values, twice.
  pub scrape-Distinct :
      (times : Times F) (wall : ℕ) (res : ScanResult F) (retention : ℤ) (a : Aggregator F)
      (r : Registry F)
      → Distinct
          (map series (scrape fl sys (publish fl times (apply fl sys wall res retention a).0 r)))
  unfolding scrape publish
  scrape-Distinct times wall res retention a r =
      let (keys, names) = apply-Distinct fl sys wall res retention a in
      collect_samples-Distinct fl sys (apply fl sys wall res retention a).0.samples keys names
