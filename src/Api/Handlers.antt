-- ===== src/Api/Handlers.antt =====
-- The handlers of internal/api/api.go. A handler is its answer: the status, the content type and the
-- value that is encoded as JSON. What packages sort and time do is a parameter.
use cpu_process_exporter.Base.{
  ℕ, Bool, false, not, ◌||◌, List, [], ◌∷◌, Option, none, some, Bytes, codes, eqb, ltb, leb,
  if◌then◌else◌, length, ltb_bytes,
}
use cpu_process_exporter.Base.Int.{ℤ, ltb_ℤ}
use cpu_process_exporter.Float.{Float64}
use cpu_process_exporter.Config.{ServerConfig, Config}
use cpu_process_exporter.Config.Defaults.{second}
use cpu_process_exporter.Scan.State.{ReadErrs}
use cpu_process_exporter.Aggregate.Types.{Sample, Snapshot}
use cpu_process_exporter.Aggregate.Accums.{sub_time}
use cpu_process_exporter.Metrics.Registry.{Registry, snapshot}

-- The values of the maps that are encoded.
pub data Value (F : Type 0) : Type 0 where
  text : Bytes → Value F
  texts : List Bytes → Value F
  number : ℕ → Value F
  float : F → Value F
  flag : Bool → Value F
  time : ℕ → Value F
  counts : ReadErrs → Value F
  samples : List (Sample F) → Value F

pub data Body (F : Type 0) : Type 0 where
  fields : List (Bytes × Value F) → Body F
  whole : Option Config → Body F

pub record Response (F : Type 0) : Type 0 where
  pub code : ℕ
  pub content_type : Bytes
  pub body : Body F

-- sort.Slice on the samples, Duration.String and Duration.Truncate.
pub record Std (F : Type 0) : Type 0 where
  pub sort_slice : (Sample F → Sample F → Bool) → List (Sample F) → List (Sample F)
  pub duration_text : ℤ → Bytes
  pub truncate : ℤ → ℕ → ℤ

-- What the functions and pointers of Deps hold at the time of the request.
pub record Deps (F : Type 0) : Type 0 where
  pub config : Option Config
  pub metrics : Registry F
  pub version : Bytes
  pub started_at : ℕ

pub record Server (F : Type 0) : Type 0 where
  pub cfg : ServerConfig
  pub deps : Deps F

abbrev pub status_ok : ℕ
status_ok = 200

abbrev pub status_unavailable : ℕ
status_unavailable = 503

module _ {F : Type 0} where
  unfoldable pub write_json : ℕ → Body F → Response F
  write_json code v = record {
    code = code;
    content_type = codes "application/json; charset=utf-8";
    body = v;
  }

  unfoldable pub handle_config : Server F → Response F
  unfolding write_json
  handle_config s = write_json status_ok (whole s.deps.config)

  unfoldable pub handle_livez : Server F → Response F
  unfolding write_json
  handle_livez s = write_json status_ok (fields ((codes "status", text (codes "ok")) ∷ []))

  abbrev pub ready_of : Option (Snapshot F) → Bool
  ready_of none = false
  ready_of (some snap) = leb 2 snap.scan_number

  abbrev pub scans_of : Option (Snapshot F) → ℕ
  scans_of none = 0
  scans_of (some snap) = snap.scan_number

  unfoldable pub handle_readyz : Server F → Response F
  unfolding write_json snapshot
  handle_readyz s =
      let snap = snapshot s.deps.metrics in
      let ready = ready_of snap in
      write_json (if not ready then status_unavailable else status_ok) (
        fields (
          (codes "ready", flag ready)
          ∷ (codes "scans", number (scans_of snap))
          ∷ (codes "reason", text (codes "counter values require at least two scans"))
          ∷ []))

  abbrev pub no_scan : Response F
  no_scan =
      write_json status_unavailable
        (fields ((codes "error", text (codes "no scan has completed yet")) ∷ []))

module _ {F : Type 0} (std : Std F) where
  unfoldable pub handle_index : ℕ → Server F → Response F
  unfolding write_json
  handle_index now s = write_json status_ok (
      fields (
        (codes "version", text s.deps.version)
        ∷ (codes "started_at", time s.deps.started_at)
        ∷ (
          codes "uptime",
          text (std.duration_text (std.truncate (sub_time now s.deps.started_at) second)),
        )
        ∷ (
          codes "endpoints",
          texts (
              s.cfg.metrics_path
              ∷ codes "/groups"
              ∷ codes "/config"
              ∷ codes "/stats"
              ∷ codes "/livez"
              ∷ codes "/readyz"
              ∷ []),
        )
        ∷ []))

  abbrev stats_of : Option (Snapshot F) → Response F
  stats_of none = no_scan
  stats_of (some snap) = write_json status_ok (
      fields (
        (codes "scan_at", time snap.scan_at)
        ∷ (codes "scan_number", number snap.scan_number)
        ∷ (codes "duration", text (std.duration_text snap.duration))
        ∷ (codes "self_cpu_secs", float snap.self_cpu)
        ∷ (codes "procs_total", number snap.procs_total)
        ∷ (codes "procs_scanned", number snap.procs_scanned)
        ∷ (codes "procs_ignored", number snap.procs_ignored)
        ∷ (codes "procs_vanished", number snap.procs_vanished)
        ∷ (codes "procs_denied", number snap.procs_denied)
        ∷ (codes "read_errors", counts snap.read_errs)
        ∷ (codes "groups", number (length snap.groups))
        ∷ (codes "names_seen", number snap.names_seen)
        ∷ (codes "state_entries", number snap.state_entries)
        ∷ []))

  unfoldable pub handle_stats : Server F → Response F
  unfolding write_json snapshot
  handle_stats s = stats_of (snapshot s.deps.metrics)

module _ {F : Type 0} (fl : Float64 F) (std : Std F) where
  abbrev pub cpu_of : Sample F → F
  cpu_of s = fl.add_f s.accum.utime_seconds s.accum.stime_seconds

  -- The comparison that the query asks for.
  unfoldable pub less_for : Bytes → Sample F → Sample F → Bool
  less_for by =
      if eqb by (codes "rss") || eqb by (codes "memory")
      then (λ a b. ltb b.rss_bytes a.rss_bytes)
      else if eqb by (codes "procs")
      then (λ a b. ltb b.num_procs a.num_procs)
      else if eqb by (codes "fds")
      then (λ a b. ltb_ℤ b.open_fds a.open_fds)
      else if eqb by (codes "name")
      then (λ a b. ltb_bytes a.key.name b.key.name)
      else (λ a b. fl.ltb_f (cpu_of b) (cpu_of a))

  abbrev pub groups_answer : Snapshot F → List (Sample F) → Response F
  groups_answer snap list = write_json status_ok (
      fields (
        (codes "scan_at", time snap.scan_at)
        ∷ (codes "duration", text (std.duration_text snap.duration))
        ∷ (codes "groups", samples list)
        ∷ []))

  abbrev pub groups_of : Bytes → Option (Snapshot F) → Response F
  groups_of by none = no_scan
  groups_of by (some snap) = groups_answer snap (std.sort_slice (less_for by) snap.samples)

  -- `by` is the query's value of "sort", empty where there is none.
  unfoldable pub handle_groups : Bytes → Server F → Response F
  unfolding write_json snapshot
  handle_groups by s = groups_of by (snapshot s.deps.metrics)
