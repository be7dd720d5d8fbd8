-- ===== src/Tests/Served.antt =====
-- The theorems of the metrics and of the HTTP surface on a scan of three processes.
use mathlib.Core.List.{Perm}
use cpu_process_exporter.Tests.{system}
use cpu_process_exporter.Tests.Groups.{result}
use cpu_process_exporter.Tests.Sorts.{std, std-SortLaws}
use cpu_process_exporter.Base.{
  ℕ, ◌≡◌, refl, true, List, [], ◌∷◌, map, none, some, codes, All, Distinct, arith,
}
use cpu_process_exporter.Base.Int.{pos}
use cpu_process_exporter.Config.{ServerConfig}
use cpu_process_exporter.Float.{exact, exact-OrderLaws}
use cpu_process_exporter.Aggregate.Types.{Sample, Snapshot}
use cpu_process_exporter.Aggregate.Apply.{new_aggregator, apply}
use cpu_process_exporter.Metrics.Collect.{collect}
use cpu_process_exporter.Metrics.Announced.{IsValid, collect-IsValid}
use cpu_process_exporter.Metrics.Series.{series}
use cpu_process_exporter.Metrics.Registry.{Times, new, publish, snapshot, scrape}
use cpu_process_exporter.Metrics.Scrape.{scrape-Distinct}
use cpu_process_exporter.Api.Handlers.{
  Server, fields, flag, number, text, status_ok, write_json, handle_readyz, handle_groups,
  groups_answer,
}
use cpu_process_exporter.Api.Order.{IsSortedBy, groups-IsSortedBy}
use cpu_process_exporter.Api.Ready.{Round, rounds, readyz-rounds}

abbrev times : Times ℕ
times = record { seconds = λ d. 1; unix = λ t. pos t }

abbrev snap : Snapshot ℕ
snap = (apply exact system 1 result (pos 6) new_aggregator).0

collect-IsValid_example : All IsValid (collect exact system (some snap))
collect-IsValid_example = collect-IsValid exact system (some snap)

scrape-Distinct_example : Distinct (map series (scrape exact system (publish exact times snap new)))
scrape-Distinct_example = scrape-Distinct exact system times 1 result (pos 6) new_aggregator new

abbrev server_config : ServerConfig
server_config = record { listen = codes ":9256"; metrics_path = codes "/metrics" }

abbrev server : Server ℕ
server = record {
  cfg = server_config;
  deps = record {
    config = none;
    metrics = publish exact times snap new;
    version = codes "1";
    started_at = 7;
  };
}

published : snapshot server.deps.metrics ≡ some snap
unfolding publish snapshot
published = refl

groups-IsSortedBy_example :
    (list : List (Sample ℕ)) × (handle_groups exact std (codes "rss") server
      ≡ groups_answer exact std snap list)
    × IsSortedBy exact std (codes "rss") list
    × Perm list snap.samples
groups-IsSortedBy_example =
    groups-IsSortedBy exact std (codes "rss") server snap exact-OrderLaws std-SortLaws published

abbrev round : Round ℕ
round = record { wall = 1; result = result; retention = pos 6 }

readyz-rounds_example :
    handle_readyz (record {
      cfg = server_config;
      deps = record {
        config = none;
        metrics = rounds exact system times (round ∷ round ∷ []) new_aggregator new;
        version = codes "1";
        started_at = 7;
      };
    })
    ≡ write_json status_ok (
        fields (
          (codes "ready", flag true)
          ∷ (codes "scans", number 2)
          ∷ (codes "reason", text (codes "counter values require at least two scans"))
          ∷ []))
readyz-rounds_example =
    readyz-rounds exact system times (round ∷ round ∷ []) server_config none (codes "1") 7
      (omega arith)
