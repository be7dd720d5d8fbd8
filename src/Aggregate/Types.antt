-- ===== src/Aggregate/Types.antt =====
-- The types of internal/aggregate/aggregate.go. A time is its nanoseconds since Go's zero time, so
-- that IsZero is a test for 0. NumProcs and the coverage counts are at most the number of processes.
use cpu_process_exporter.Base.{
  ℕ, ◌≡◌, ◌↔◌, Bool, true, ◌&&◌, List, Bytes, eqb, eqb_iff, Eq, bytes_eq, arith,
}
use cpu_process_exporter.Base.Int.{ℤ}
use cpu_process_exporter.Scan.State.{ReadErrs}

pub record Key : Type 0 where
  pub name : Bytes
  pub user : Bytes

abbrev pub key_beq : Key → Key → Bool
key_beq a b = eqb a.name b.name && eqb a.user b.user

pub key_beq_iff : (a b : Key) → (key_beq a b ≡ true) ↔ (a ≡ b)
key_beq_iff a b = ground (arith, eqb_iff a.name b.name, eqb_iff a.user b.user)

instance abbrev pub key_eq : Eq Key
key_eq = record { beq = key_beq; beq_iff = key_beq_iff }

pub record Accum (F : Type 0) : Type 0 where
  pub utime_seconds : F
  pub stime_seconds : F
  pub minor_faults : ℕ
  pub major_faults : ℕ
  pub vol_ctx_sw : ℕ
  pub invol_ctx_sw : ℕ
  pub read_bytes : ℕ
  pub write_bytes : ℕ
  pub last_seen : ℕ

-- `Groups` and `List` hold pointers to the same samples, which nobody writes once they are published.
pub record Sample (F : Type 0) : Type 0 where
  pub key : Key
  pub num_procs : ℕ
  pub threads : ℤ
  pub rss_bytes : ℕ
  pub vsize_bytes : ℕ
  pub shared_bytes : ℕ
  pub data_bytes : ℕ
  pub swap_bytes : ℕ
  pub open_fds : ℤ
  pub max_fds : ℤ
  pub oldest_start : F
  pub states : List (ℕ × ℕ)
  pub state_names : List (Bytes × ℕ)
  pub worst_fd_ratio : F
  pub pss_bytes : ℕ
  pub swap_pss_bytes : ℕ
  pub accum : Accum F
  pub fds_read : ℕ
  pub io_read : ℕ
  pub pss_read : ℕ

pub record Snapshot (F : Type 0) : Type 0 where
  pub groups : List (Key × Sample F)
  pub samples : List (Sample F)
  pub scan_at : ℕ
  pub duration : ℤ
  pub procs_total : ℕ
  pub procs_scanned : ℕ
  pub procs_ignored : ℕ
  pub procs_vanished : ℕ
  pub procs_denied : ℕ
  pub read_errs : ReadErrs
  pub state_entries : ℕ
  pub self_cpu : F
  pub names_seen : ℕ
  pub scan_number : ℕ

pub record Aggregator (F : Type 0) : Type 0 where
  pub accums : List (Key × Accum F)
  pub names_seen : List (Bytes × Unit {0})
  pub scans : ℕ
