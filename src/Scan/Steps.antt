-- ===== src/Scan/Steps.antt =====
-- The parts of readProcess, in their order. A part takes what the parts before it have assembled.
use cpu_process_exporter.Base.{
  ℕ, zero, suc, ◌+◌, ◌/◌, ◌%◌, ◌++◌, Bool, true, false, not, ◌&&◌, ◌||◌, List, [], ◌∷◌, Option,
  none, some, Bytes, codes, is_empty, if◌then◌else◌, ◌==◌,
}
use cpu_process_exporter.Base.Int.{negsuc}
use cpu_process_exporter.Filter.{keep, is_kernel_thread}
use cpu_process_exporter.Filter
use cpu_process_exporter.Namer
use cpu_process_exporter.Procfs.Error.{Result, ok, err, is_vanished, is_denied}
use cpu_process_exporter.Procfs.Cmdline.{read_cmdline, read_exe}
use cpu_process_exporter.Procfs.Stat.{Stat, read_stat}
use cpu_process_exporter.Procfs.Status.{Status, read_status}
use cpu_process_exporter.Procfs.System.{pages_to_bytes, start_time_unix}
use cpu_process_exporter.Procfs.Users.{user_name}
use cpu_process_exporter.StateMap.{PidState, lookup_state, touch}
use cpu_process_exporter.Scan.State.{
  Process, St, Env, Step, pure, stop, note, count_vanished, count_denied, count_ignored, count_err,
}

-- itoa's loop: `fuel` bounds the rounds by the twenty bytes of its buffer.
unfoldable pub itoa_loop : ℕ → ℕ → Bytes → Bytes
itoa_loop zero n buf = buf
itoa_loop (suc fuel) n buf =
    let rest = itoa_loop fuel (n / 10) ((b'0' + n % 10) ∷ buf) in if n == 0 then buf else rest

unfoldable pub itoa : ℕ → Bytes
unfolding itoa_loop
itoa n = if n == 0 then codes "0" else itoa_loop 20 n []

unfoldable pub uid_string : ℕ → Bytes
unfolding itoa
uid_string uid = codes "uid:" ++ itoa uid

-- What the filter is shown.
abbrev pub filter_input : Stat → List Bytes × Bool → Bytes → Filter.Input
filter_input st (cmdline, cmdline_read) user = record {
  comm = st.comm;
  cmdline = cmdline;
  user = user;
  ppid = st.ppid;
  is_kernel = cmdline_read && is_kernel_thread cmdline st.ppid;
}

module _ {F R M : Type 0} (env : Env F R M) (pid : ℕ) where
  unfoldable pub stat_result : Result Stat → Step F Stat
  stat_result (ok st) = pure st
  stat_result (err e) =
      if is_vanished e
      then stop count_vanished
      else if is_denied e
      then stop count_denied
      else stop (count_err (codes "stat"))

  unfoldable pub stat_step : Step F Stat
  unfolding stat_result
  stat_step = stat_result (read_stat env.world pid)

  unfoldable pub lookup_step : Stat → Step F (Option (PidState F))
  lookup_step st s =
      let (prev, states) = lookup_state s.states pid st.start_ticks in
      (some prev, record s { states = states })

  -- `prev.Name == ""`, where there is a previous state.
  abbrev pub cached_name : Option (PidState F) → Bytes
  cached_name none = []
  cached_name (some prev) = if env.config.scan.cache_cmdline then prev.name else []

  abbrev pub needs_cmdline_now : Option (PidState F) → Bool
  needs_cmdline_now prev = env.filter.needs_cmdline || is_empty (cached_name prev)

  unfoldable pub cmdline_result : Result (List Bytes) → Step F (List Bytes × Bool)
  cmdline_result (ok cmdline) = pure (cmdline, true)
  cmdline_result (err e) =
      if is_vanished e then stop count_vanished else note (codes "cmdline") ([], true)

  -- The command line, and whether it was read.
  unfoldable pub cmdline_step : Option (PidState F) → Step F (List Bytes × Bool)
  unfolding cmdline_result
  cmdline_step prev =
      if needs_cmdline_now prev
      then cmdline_result (read_cmdline env.world pid)
      else pure ([], false)

  -- uid, userName and status; haveStatus is that status is there.
  abbrev pub cached_uid : Option (PidState F) → ℕ
  cached_uid none = 0
  cached_uid (some prev) =
      if env.config.scan.cache_cmdline && not (is_empty prev.user) then prev.uid else 0

  abbrev pub cached_user : Option (PidState F) → Bytes
  cached_user none = []
  cached_user (some prev) = if env.config.scan.cache_cmdline then prev.user else []

  unfoldable pub resolve_user : ℕ → Bytes → Step F Bytes
  resolve_user uid (c ∷ user) s = (some (c ∷ user), s)
  resolve_user uid [] s =
      let (name, users) = user_name env.lookup_id s.users uid in
      if env.config.naming.resolve_users
      then (some name, record s { users = users })
      else (some (uid_string uid), s)

  abbrev with_status : Status → Option Bytes × St F → Option (ℕ × Bytes × Option Status) × St F
  with_status status (none, s) = (none, s)
  with_status status (some user, s) = (some (status.uid, user, some status), s)

  unfoldable pub status_result : ℕ → Bytes → Result Status → Step F (ℕ × Bytes × Option Status)
  unfolding resolve_user
  status_result uid user (ok status) s = with_status status (resolve_user status.uid user s)
  status_result uid user (err e) s =
      if is_vanished e then stop count_vanished s else note (codes "status") (uid, user, none) s

  unfoldable pub status_step : Option (PidState F) → Step F (ℕ × Bytes × Option Status)
  unfolding status_result
  status_step prev =
      if env.config.scan.read_status || is_empty (cached_user prev)
      then status_result (cached_uid prev) (cached_user prev) (read_status env.world pid)
      else pure (cached_uid prev, cached_user prev, none)

  -- An ignored process is stamped, and counted.
  unfoldable pub filter_step : Filter.Input → Step F (Unit {0})
  filter_step i s =
      if not (keep env.regexp env.filter i).0
      then (none, record s { states = touch s.states pid; res = count_ignored s.res })
      else (some tt, s)

  abbrev or_absent : Result Bytes → Bytes
  or_absent (ok exe) = exe
  or_absent (err e) = []

  abbrev name_or : Bytes → Bytes → Bytes
  name_or [] fresh = fresh
  name_or (c ∷ name) fresh = c ∷ name

  -- The cached name, or a fresh one; the read of exe is made only for that.
  unfoldable pub group_name : Stat → Option (PidState F) → List Bytes → Bytes
  group_name st prev cmdline = name_or (cached_name prev) (
      Namer.name env.regexp env.namer
        (record { comm = st.comm; exe = or_absent (read_exe env.world pid); cmdline = cmdline }))

  abbrev swap_of : Option Status → ℕ
  swap_of none = 0
  swap_of (some status) = status.swap_bytes

  abbrev pub is_there : {A : Type 0} → Option A → Bool
  is_there none = false
  is_there (some a) = true

  unfoldable pub new_process : Stat → Bytes → ℕ → Bytes → Option Status → Process F
  new_process st name uid user status = record {
    pid = pid;
    ppid = st.ppid;
    comm = st.comm;
    name = name;
    user = name_or user (uid_string uid);
    uid = uid;
    state = st.state;
    start_ticks = st.start_ticks;
    start_unix = start_time_unix env.float env.system st.start_ticks;
    rss_bytes = pages_to_bytes env.system st.rss_pages;
    vsize_bytes = st.vsize_bytes;
    shared_bytes = 0;
    data_bytes = 0;
    swap_bytes = swap_of status;
    threads = st.threads;
    open_fds = negsuc 0;
    max_fds = negsuc 0;
    fd_ratio = env.float.zero_f;
    pss_bytes = 0;
    swap_pss_bytes = 0;
    d_utime_ticks = 0;
    d_stime_ticks = 0;
    d_minor_faults = 0;
    d_major_faults = 0;
    d_vol_ctx_sw = 0;
    d_invol_ctx_sw = 0;
    d_read_bytes = 0;
    d_write_bytes = 0;
    have_deltas = false;
    have_io = false;
    have_fds = false;
    have_status = is_there status;
    have_pss = false;
  }
