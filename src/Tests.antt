-- ===== src/Tests.antt =====
-- Concrete inputs: a machine with two processes, seen by two scans.
mod Files
mod Scans
mod Rules
mod Groups
mod Configs
mod Sorts
mod Served
use cpu_process_exporter.Base.{
  ℕ, suc, ◌+◌, ◌≡◌, refl, Bool, true, false, List, [], ◌∷◌, ◌++◌, Option, none, some, Bytes, codes,
  has_prefix, ◌==◌, if◌then◌else◌,
}
use cpu_process_exporter.Base.Int.{ℤ, pos, negsuc}
use cpu_process_exporter.Config.{Config, FilterConfig, ScanConfig, NamingRule}
use cpu_process_exporter.Float.{Float64, exact}
use cpu_process_exporter.Filter.{Filter}
use cpu_process_exporter.Namer.{Namer}
use cpu_process_exporter.Regexp.{Regexp}
use cpu_process_exporter.Procfs.Error.{Sentinel, Error, Result, ok, err, malformed}
use cpu_process_exporter.Procfs.Stat.{Stat}
use cpu_process_exporter.Procfs.System.{System}
use cpu_process_exporter.Procfs.World.{World, File, Lines}
use cpu_process_exporter.StateMap.{PidState, StateMap, new_state_map}
use cpu_process_exporter.Scan.State.{Process, St, Env}
use cpu_process_exporter.Scan.Loop.{empty_tally}

-- A pattern is a prefix; a match is all of the text.
abbrev pub prefixes : Regexp Bytes Bytes
prefixes = record {
  compile = some;
  match_string = λ re s. has_prefix s re;
  find_submatch = λ re s. if has_prefix s re then some s else none;
  expand = λ re template s m. template ++ m;
}

abbrev pub denied : Error
denied = record { is = λ s. elim s [ Sentinel.err_permission ↦ true | _ ↦ false ] }

abbrev pub stat_text : Bytes → Bytes → Bytes
stat_text utime start =
    codes "1 (w) S 0 1 1 0 -1 64 10 0 2 0 "
    ++ utime
    ++ codes " 4 0 0 20 0 1 0 "
    ++ start
    ++ codes " 64 5"

-- The files of process 1, with its user time and its io file; process 2 is gone by the time it is read.
abbrev pub gone : Error
gone = record { is = λ s. elim s [ Sentinel.err_not_exist ↦ true | _ ↦ false ] }

abbrev pub file_of : Bytes → ℕ → File → Result Bytes
file_of utime pid f =
    if pid == 1
    then elim f [
      | File.stat ↦ ok (stat_text utime (codes "9"))
      | File.cmdline ↦ ok (codes "/bin/w")
      | File.statm ↦ ok (codes "5 4 3 2 0 1")
      | _ ↦ err gone
    ]
    else err gone

abbrev pub lines_of : Result Lines → ℕ → File → Result Lines
lines_of io pid f = elim f [
  | File.io ↦ io
  | File.status ↦ ok (record { lines = codes "Uid: 0" ∷ []; scan_err = none })
  | _ ↦ err denied
]

abbrev pub machine : Bytes → Result Lines → World
machine utime io = record {
  proc_names = ok (codes "1" ∷ codes "self" ∷ codes "2" ∷ []);
  read_file = file_of utime;
  scan_file = lines_of io;
  read_exe_link = λ pid. ok (codes "/bin/w");
  open_fd_dir = λ pid. ok ((3, none) ∷ (0, some malformed) ∷ []);
}

abbrev pub scan_config : ScanConfig
scan_config = record {
  interval = pos 15;
  batch_size = pos 1;
  batch_sleep = pos 1;
  fd_scan_every = pos 2;
  read_smaps = true;
  smaps_scan_every = pos 2;
  read_io = true;
  read_status = true;
  cache_cmdline = true;
  group_retention = pos 60;
  proc_path = codes "/proc";
}

abbrev pub filter_config : FilterConfig
filter_config = record {
  ignore_kernel_threads = false;
  ignore_comm = none;
  ignore_comm_prefix = some (codes "kw" ∷ []);
  ignore_comm_regex = none;
  ignore_cmdline_regex = none;
  ignore_users = none;
  include_only = none;
}

abbrev pub config : Config
config = record {
  scan = scan_config;
  filter = filter_config;
  naming = record { fallback = codes "comm"; resolve_users = false; rules = none };
  server = record { listen = []; metrics_path = [] };
  log = record { level = []; format = [] };
}

abbrev pub keep_most : Filter Bytes
keep_most = record {
  ignore_kernel = false;
  ignore_comm = [];
  ignore_prefix = codes "kw" ∷ [];
  ignore_regex = [];
  ignore_cmd = [];
  ignore_users = [];
  include_only = [];
  needs_cmdline = false;
}

abbrev pub by_comm : Namer Bytes
by_comm = record { rules = []; fallback = codes "comm" }

abbrev pub system : System ℕ
system = record { clock_ticks = pos 100; page_size = 4096; boot_time = 7; smaps_rollup = true }

abbrev pub seen : World → Env ℕ Bytes Bytes
seen w = record {
  float = exact;
  regexp = prefixes;
  config = config;
  filter = keep_most;
  namer = by_comm;
  system = system;
  lookup_id = λ uid. none;
  world = w;
  do_fds = true;
  do_smaps = false;
}

abbrev pub io_lines : Result Lines
io_lines =
    ok (record { lines = codes "read_bytes: 70" ∷ codes "write_bytes: 8" ∷ []; scan_err = none })

-- The first scan may not read the io file.
abbrev pub first_env : Env ℕ Bytes Bytes
first_env = seen (machine (codes "30") (err denied))

abbrev pub second_env : Env ℕ Bytes Bytes
second_env = seen (machine (codes "50") io_lines)

abbrev pub empty_st : St ℕ
empty_st = record { states = record { m = []; gen = 1 }; users = []; res = empty_tally }

abbrev pub no_process : Process ℕ
no_process = record {
  pid = 0;
  ppid = pos 0;
  comm = [];
  name = [];
  user = [];
  uid = 0;
  state = 0;
  start_ticks = 0;
  start_unix = 0;
  rss_bytes = 0;
  vsize_bytes = 0;
  shared_bytes = 0;
  data_bytes = 0;
  swap_bytes = 0;
  threads = pos 0;
  open_fds = pos 0;
  max_fds = pos 0;
  fd_ratio = 0;
  pss_bytes = 0;
  swap_pss_bytes = 0;
  d_utime_ticks = 0;
  d_stime_ticks = 0;
  d_minor_faults = 0;
  d_major_faults = 0;
  d_vol_ctx_sw = 0;
  d_invol_ctx_sw = 0;
  d_read_bytes = 0;
  d_write_bytes = 0;
  have_deltas = false;
  have_io = false;
  have_fds = false;
  have_status = false;
  have_pss = false;
}

abbrev pub process_of : Option (Process ℕ) → Process ℕ
process_of none = no_process
process_of (some p) = p
