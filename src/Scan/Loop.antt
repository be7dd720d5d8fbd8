-- ===== src/Scan/Loop.antt =====
-- Scan of internal/scan/scan.go. The context is what it answers: `err_at k` at the head of batch k,
-- and `done_at k` in the select behind it. The clock and getrusage are arguments.
use cpu_process_exporter.Base.{
  ℕ, zero, suc, ◌+◌, ◌-◌, Bool, not, ◌&&◌, Option, none, some, List, [], ◌∷◌, ◌++◌, if◌then◌else◌,
  ltb, length, take, drop, add64,
}
use cpu_process_exporter.Base.Int.{ℤ, pos, pos_part, ltb_ℤ}
use cpu_process_exporter.Float.{Float64}
use cpu_process_exporter.Config.{ScanConfig}
use cpu_process_exporter.Procfs.Error.{Error, Result}
use cpu_process_exporter.Procfs.Pids.{list_pids}
use cpu_process_exporter.Procfs.Users.{UserCache}
use cpu_process_exporter.StateMap.{StateMap, new_state_map, next_generation, prune, len}
use cpu_process_exporter.Scan.Read.{read_process}
use cpu_process_exporter.Scan.Schedule.{should_scan_fds, should_scan_smaps}
use cpu_process_exporter.Scan.State.{Process, Tally, St, Env}

pub record Scanner (F : Type 0) : Type 0 where
  pub state : StateMap F
  pub users : UserCache
  pub scan_no : ℕ

pub record ScanResult (F : Type 0) : Type 0 where
  pub tally : Tally F
  pub open tally use *
  -- nanoseconds since the zero time
  pub scan_at : ℕ
  pub duration : ℤ
  pub generation : ℕ
  pub total : ℕ
  pub state_entries : ℕ
  pub state_pruned : ℕ
  pub self_cpu : F

pub data ScanError : Type 0 where
  listing : Error → ScanError
  cancelled : ScanError

pub data Outcome (A : Type 0) : Type 0 where
  done : A → Outcome A
  failed : ScanError → Outcome A
  out_of_fuel : Outcome A

pub record Context : Type 0 where
  pub err_at : ℕ → Bool
  pub done_at : ℕ → Bool

-- What Getrusage answers: seconds and microseconds of user and system time.
pub record Rusage : Type 0 where
  pub utime_sec : ℤ
  pub utime_usec : ℤ
  pub stime_sec : ℤ
  pub stime_usec : ℤ

-- selfCPU on that answer, none where Getrusage fails.
unfoldable pub self_cpu_of : {F : Type 0} → Float64 F → Option Rusage → F
self_cpu_of fl none = fl.zero_f
self_cpu_of fl (some ru) =
    fl.add_f
      (fl.add_f (fl.of_int ru.utime_sec) (fl.div_f (fl.of_int ru.utime_usec) (fl.of_nat 1_000_000)))
      (fl.add_f (fl.of_int ru.stime_sec) (fl.div_f (fl.of_int ru.stime_usec) (fl.of_nat 1_000_000)))

-- What the clock and Getrusage answer during the scan.
pub record Clock : Type 0 where
  pub start : ℕ
  pub since_start : ℤ
  pub cpu_before : Option Rusage
  pub cpu_after : Option Rusage

module _ {F R M : Type 0} (env : Env F R M) where
  abbrev pub add_process : Option (Process F) × St F → St F
  add_process (none, s) = s
  add_process (some p, s) = record s {
    res = record (s.res) { procs = s.res.procs ++ (p ∷ []); scanned = suc s.res.scanned };
  }

  -- The inner loop, over one batch.
  unfoldable pub read_all : List ℕ → St F → St F
  read_all [] s = s
  read_all (pid ∷ pids) s = read_all pids (add_process (read_process env pid s))

  -- The outer loop, from index `i` in round `k`. Every round takes `batch` processes, so one round
  -- more than there are processes is enough fuel.
  unfoldable pub walk : Context → List ℕ → ℕ → Bool → ℕ → ℕ → ℕ → St F → Outcome (Unit {0}) × St F
  walk ctx pids batch sleeps zero k i s = (out_of_fuel, s)
  walk ctx pids batch sleeps (suc fuel) k i s =
      let end = (if ltb (length pids) (i + batch) then length pids else i + batch) in
      let s' = read_all (take (end - i) (drop i pids)) s in
      let rest = walk ctx pids batch sleeps fuel (suc k) (i + batch) s' in
      if not (ltb i (length pids))
      then (done tt, s)
      else if ctx.err_at k
      then (failed cancelled, s)
      else if ltb end (length pids) && sleeps && ctx.done_at k
      then (failed cancelled, s')
      else rest

abbrev pub empty_tally : {F : Type 0} → Tally F
empty_tally = record {
  procs = [];
  scanned = 0;
  ignored = 0;
  vanished = 0;
  denied = 0;
  read_errs = [];
}

-- `batch < 1` becomes 1.
abbrev pub batch_of : ScanConfig → ℕ
batch_of cfg = if ltb_ℤ cfg.batch_size (pos 1) then 1 else pos_part cfg.batch_size

abbrev pub start_scan : {F : Type 0} → Scanner F → Scanner F
start_scan sc = record sc { state = next_generation sc.state; scan_no = add64 sc.scan_no 1 }

abbrev pub start_st : {F : Type 0} → Scanner F → St F
start_st sc = record { states = sc.state; users = sc.users; res = empty_tally }

module _ {F R M : Type 0} (env : Env F R M) where
  -- The environment of this scan: the two schedules are read off the scan number.
  abbrev pub scan_env : ℕ → Env F R M
  scan_env scan_no = record env {
    do_fds = should_scan_fds env.config.scan scan_no;
    do_smaps = should_scan_smaps env.config.scan scan_no;
  }

  -- Behind the walk: Prune, and the figures of the scan.
  unfoldable pub finish_scan :
      Clock → ℕ → ℕ → Outcome (Unit {0}) × St F → Outcome (ScanResult F) × Scanner F
  finish_scan clock scan_no total (failed e, s) =
      (failed e, record { state = s.states; users = s.users; scan_no = scan_no })
  finish_scan clock scan_no total (out_of_fuel, s) =
      (out_of_fuel, record { state = s.states; users = s.users; scan_no = scan_no })
  finish_scan clock scan_no total (done _, s) =
      let (pruned, states) = prune s.states in
      let cpu =
        env.float.sub_f (self_cpu_of env.float clock.cpu_after)
          (self_cpu_of env.float clock.cpu_before) in
      (
        done (record {
          tally = s.res;
          scan_at = clock.start;
          duration = clock.since_start;
          generation = s.states.gen;
          total = total;
          state_entries = len states;
          state_pruned = pruned;
          self_cpu = if env.float.ltb_f cpu env.float.zero_f then env.float.zero_f else cpu;
        }),
        record { state = states; users = s.users; scan_no = scan_no },
      )

  unfoldable pub scan_listed :
      Context → Clock → Scanner F → Result (List ℕ) → Outcome (ScanResult F) × Scanner F
  unfolding walk finish_scan
  scan_listed ctx clock sc (Result.err e) = (failed (listing e), sc)
  scan_listed ctx clock sc (Result.ok pids) = finish_scan clock sc.scan_no (length pids) (
      walk (scan_env sc.scan_no) ctx pids (batch_of env.config.scan)
        (ltb_ℤ (pos 0) env.config.scan.batch_sleep) (suc (length pids)) 0 0 (start_st sc))

  unfoldable pub scan : Context → Clock → Scanner F → Outcome (ScanResult F) × Scanner F
  unfolding scan_listed
  scan ctx clock sc = scan_listed ctx clock (start_scan sc) (list_pids env.world)

unfoldable pub new_scanner : {F : Type 0} → UserCache → Scanner F
unfolding new_state_map
new_scanner users = record { state = new_state_map; users = users; scan_no = 0 }

unfoldable pub state_len : {F : Type 0} → Scanner F → ℕ
unfolding len
state_len sc = len sc.state

-- ResetState, after a change of the naming configuration.
unfoldable pub reset_state : {F : Type 0} → Scanner F → Scanner F
reset_state sc = record sc { state = new_state_map }
