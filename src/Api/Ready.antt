-- ===== src/Api/Ready.antt =====
-- /readyz, along the rounds of a running exporter: a scan, Apply and Publish.
use cpu_process_exporter.Base.{
  ℕ, suc, ◌+◌, ◌<◌, ◌≡◌, refl, ap, ◌∙◌, Bool, true, false, not, List, [], ◌∷◌, Option, Bytes, codes,
  leb, if◌then◌else◌, length, arith, add64, u64_mod,
}
use cpu_process_exporter.Base.Int.{ℤ}
use cpu_process_exporter.Float.{Float64}
use cpu_process_exporter.Procfs.System.{System}
use cpu_process_exporter.Scan.Loop.{ScanResult}
use cpu_process_exporter.Aggregate.Types.{Aggregator}
use cpu_process_exporter.Aggregate.Apply.{new_aggregator, apply}
use cpu_process_exporter.Metrics.Registry.{Registry, Times, new, publish, snapshot}
use cpu_process_exporter.Api.Handlers.{
  fields, flag, number, text, status_ok, status_unavailable, write_json, ready_of, scans_of,
  handle_readyz,
}
use cpu_process_exporter.Config.{ServerConfig, Config}

-- What one round brings: the clock, the result of the scan and the retention in force.
pub record Round (F : Type 0) : Type 0 where
  pub wall : ℕ
  pub result : ScanResult F
  pub retention : ℤ

module _ {F : Type 0} (fl : Float64 F) (sys : System F) (times : Times F) where
  -- The registry after the rounds, each applied and published.
  abbrev pub rounds : List (Round F) → Aggregator F → Registry F → Registry F
  rounds [] a r = r
  rounds (x ∷ xs) a r =
      let (snap, a') = apply fl sys x.wall x.result x.retention a in
      rounds xs a' (publish fl times snap r)

  -- The registry has seen as many scans as the aggregator.
  abbrev IsCounted : ℕ → Aggregator F → Registry F → Type 0
  IsCounted n a r = (a.scans ≡ n) × (scans_of (snapshot r) ≡ n) × (ready_of (snapshot r) ≡ leb 2 n)

  start : IsCounted 0 new_aggregator new
  unfolding new_aggregator new snapshot
  start = (refl, refl, refl)

  answer_not :
      (b : Bool)
      → (if not b then status_unavailable else status_ok)
        ≡ (if b then status_ok else status_unavailable)
  answer_not true = refl
  answer_not false = refl

  rounds-IsCounted :
      (xs : List (Round F)) (n : ℕ) (a : Aggregator F) (r : Registry F)
      → n + length xs < u64_mod
      → IsCounted n a r
      → (scans_of (snapshot (rounds xs a r)) ≡ n + length xs)
        × (ready_of (snapshot (rounds xs a r)) ≡ leb 2 (n + length xs))
  unfolding snapshot publish apply add64
  rounds-IsCounted [] n a r small h = (ground (arith, h), h.2 ∙ ap (leb 2) (omega arith))
  rounds-IsCounted (x ∷ xs) n a r small h =
      let now : add64 a.scans 1 ≡ suc n = ground (arith, h) in
      let (scans, ready) =
        rounds-IsCounted xs (suc n) (apply fl sys x.wall x.result x.retention a).1
          (publish fl times (apply fl sys x.wall x.result x.retention a).0 r) (omega (arith, small))
          (now, now, ap (leb 2) now) in
      (scans ∙ omega arith, ready ∙ ap (leb 2) (omega arith))

  -- After n rounds from the start, below 2^64, /readyz answers 200 where n is at least 2 and 503 before,
  -- with n as the number of scans: the second scan makes the exporter ready, and it stays so.
  pub readyz-rounds :
      (xs : List (Round F)) (cfg : ServerConfig) (config : Option Config) (version : Bytes)
      (started : ℕ)
      → length xs < u64_mod
      → handle_readyz (record {
        cfg = cfg;
        deps = record {
          config = config;
          metrics = rounds xs new_aggregator new;
          version = version;
          started_at = started;
        };
      })
        ≡ write_json (if leb 2 (length xs) then status_ok else status_unavailable) (
            fields (
              (codes "ready", flag (leb 2 (length xs)))
              ∷ (codes "scans", number (length xs))
              ∷ (codes "reason", text (codes "counter values require at least two scans"))
              ∷ []))
  unfolding handle_readyz
  readyz-rounds xs cfg config version started small =
      let (scans, ready) = rounds-IsCounted xs 0 new_aggregator new (omega (arith, small)) start in
      let same : 0 + length xs ≡ length xs = omega arith in
      rw (scans ∙ same, ready ∙ ap (leb 2) same, answer_not (leb 2 (length xs))) refl
