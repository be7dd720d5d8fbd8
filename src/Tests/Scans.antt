-- ===== src/Tests/Scans.antt =====
-- The two scans, run, and the theorems of the scanner applied to them.
use cpu_process_exporter.Tests.{denied, first_env, second_env, empty_st, process_of}
use cpu_process_exporter.Base.{
  Bytes, ℕ, ◌+◌, ◌≤◌, All, ◌≡◌, ◌≢◌, refl, inl, true, false, [], ◌∷◌, Option, none, some, arith,
  add64, length, ◌&&◌, nat_eq,
}
use cpu_process_exporter.Base.Int.{pos}
use cpu_process_exporter.Config.{ScanConfig}
use cpu_process_exporter.Procfs.Error.{Result, ok, err}
use cpu_process_exporter.Procfs.World.{File}
use cpu_process_exporter.Procfs.Pids.{list_pids, pids_of_names, pid_of_name}
use cpu_process_exporter.StateMap.{PidState}
use cpu_process_exporter.StateMap.Identity.{IsAbsent}
use cpu_process_exporter.Scan.State.{Env, Process, St}
use cpu_process_exporter.Scan.Schedule.{should_scan_fds, should_scan_smaps}
use cpu_process_exporter.Scan.Loop.{
  Scanner, ScanResult, Context, Clock, Outcome, done, out_of_fuel, scan, scan_listed, walk,
  read_all, finish_scan, start_scan, start_st, scan_env, empty_tally,
}
use cpu_process_exporter.Scan.Accounting.{left_out}
use cpu_process_exporter.Scan.Batches.{Runs}
use cpu_process_exporter.Scan.Whole.{
  scan-read_all, scan_counts, IsBounded, scan-IsBounded, scan_entries, scan-ends,
}
use cpu_process_exporter.Scan.Deltas.{
  IsDifference, first_reading, stat_deltas, io_deltas, recorded, recorded_others, unread_then_read,
}
use cpu_process_exporter.Scan.Denied.{unread_cmdline}
use cpu_process_exporter.Scan.Stacking.{stacked, apart}
use cpu_process_exporter.Namer
use cpu_process_exporter.Base.{
  eqb, has_prefix, join, drop_while, trim_right, trim, lookup, insert, delete,
}
use cpu_process_exporter.Procfs.Error.{is_vanished, is_denied}
use cpu_process_exporter.Procfs.Number.{
  parse_uint_loop, parse_uint, signed, atoi, format_digits, format_uint, trim_space, split_fields,
  fields, index_byte, last_index_byte,
}
use cpu_process_exporter.Procfs.Stat.{Stat, stat_of_fields, parse_stat_at, parse_stat, read_stat}
use cpu_process_exporter.Procfs.Statm.{parse_statm, read_statm}
use cpu_process_exporter.Procfs.Status.{
  status_key, status_line, status_loop, parse_status, read_status,
}
use cpu_process_exporter.Procfs.Io.{Io, io_key, io_line, io_loop, parse_io, read_io}
use cpu_process_exporter.Procfs.Smaps.{parse_kb, smaps_line, smaps_loop, parse_smaps, read_smaps}
use cpu_process_exporter.Procfs.Fd.{count_fds_loop, count_fds, max_fds_loop, max_fds}
use cpu_process_exporter.Procfs.Cmdline.{
  split, non_empty, parse_cmdline, read_cmdline, index, read_exe,
}
use cpu_process_exporter.Procfs.Users.{uid_text, user_name, passwd_line, passwd_loop}
use cpu_process_exporter.Procfs.System.{ticks_to_seconds, start_time_unix, pages_to_bytes}
use cpu_process_exporter.StateMap.{
  next_generation, lookup_entry, lookup_state, put, touch_entry, touch, prune_entries, prune, len,
  delta,
}
use cpu_process_exporter.Filter.{keep, is_kernel_thread}
use cpu_process_exporter.Namer.{
  after_slash, base, source_text, fallback_name, matches, apply_rule, try_rule, first_name,
}
use cpu_process_exporter.Namer.Sanitize.{is_safe, safe_byte, sanitize}
use cpu_process_exporter.Scan.State.{add_err, ◌>>=◌}
use cpu_process_exporter.Scan.Steps.{
  itoa_loop, itoa, uid_string, stat_result, stat_step, lookup_step, cmdline_result, cmdline_step,
  resolve_user, status_result, status_step, filter_step, group_name, new_process,
}
use cpu_process_exporter.Scan.Readings.{
  statm_result, statm_step, io_result, io_step, fds_result, cached_fds, fds_step, smaps_result,
  cached_smaps, smaps_step, new_state, compute_deltas, with_deltas, put_step,
}
use cpu_process_exporter.Scan.Read.{finish, read_kept, read_process}

unfoldable pub first_p : Process ℕ
first_p = process_of (read_process first_env 1 empty_st).0

unfoldable pub first_s : St ℕ
first_s = (read_process first_env 1 empty_st).1

unfoldable pub second_p : Process ℕ
second_p = process_of (read_process second_env 1 first_s).0

unfoldable pub second_s : St ℕ
second_s = (read_process second_env 1 first_s).1

abbrev stat_of : Result Stat → Stat
stat_of (ok st) = st
stat_of (err e) = stat_of_fields (pos 0) [] []

abbrev io_of : Result Io → Io
io_of (ok io) = io
io_of (err e) = record { read_bytes = 0; write_bytes = 0; sysc_r = 0; sysc_w = 0 }

unfoldable first_stat : Stat
first_stat = stat_of (read_stat first_env.world 1)

unfoldable second_stat : Stat
second_stat = stat_of (read_stat second_env.world 1)

unfoldable second_io : Io
second_io = io_of (read_io second_env.world 1)

abbrev held_of : Option (PidState ℕ) → PidState ℕ
held_of none = new_state first_stat first_p none none
held_of (some st) = st

unfoldable held : PidState ℕ
held = held_of (lookup 1 first_s.states.m)

abbrev sane : Context
sane = record { err_at = λ k. false; done_at = λ k. false }

sane-Runs : Runs sane
sane-Runs = record { no_err = λ k. refl; not_done = λ k. refl }

abbrev clock : Clock
clock = record {
  start = 5;
  since_start = pos 1;
  cpu_before = none;
  cpu_after =
      some
        (record { utime_sec = pos 1; utime_usec = pos 0; stime_sec = pos 0; stime_usec = pos 0 });
}

abbrev scanner : Scanner ℕ
scanner = record { state = record { m = []; gen = 0 }; users = []; scan_no = 0 }

abbrev result_of : Outcome (ScanResult ℕ) → ScanResult ℕ
result_of (done r) = r
result_of _ = record {
  tally = empty_tally;
  scan_at = 0;
  duration = pos 0;
  generation = 0;
  total = 0;
  state_entries = 0;
  state_pruned = 0;
  self_cpu = 0;
}

unfoldable result : ScanResult ℕ
result = result_of (scan first_env sane clock scanner).0

unfoldable scanner_after : Scanner ℕ
scanner_after = (scan first_env sane clock scanner).1

-- What the runs come to.
record Ran : Type 0 where
  first_read : read_process first_env 1 empty_st ≡ (some first_p, first_s)
  second_read : read_process second_env 1 first_s ≡ (some second_p, second_s)
  first_stat_read : read_stat first_env.world 1 ≡ ok first_stat
  second_stat_read : read_stat second_env.world 1 ≡ ok second_stat
  second_io_read : read_io second_env.world 1 ≡ ok second_io
  first_io_off : first_p.have_io ≡ false
  second_io_on : second_p.have_io ≡ true
  same_start : second_p.start_ticks ≡ first_p.start_ticks
  absent : IsAbsent (lookup 1 empty_st.states.m) first_p.start_ticks
  is_held : lookup 1 first_s.states.m ≡ some held
  held_start : held.start_ticks ≡ second_p.start_ticks
  listed : list_pids first_env.world ≡ ok (1 ∷ 2 ∷ [])
  scanned : scan first_env sane clock scanner ≡ (done result, scanner_after)
  one_returned : result.tally.scanned ≡ 1
  one_gone : result.tally.vanished ≡ 1
  lifetime : second_p.d_read_bytes ≡ 70
  -- 20 ticks more than in the first scan
  ticks : second_p.d_utime_ticks ≡ 20

ran : Ran
unfolding eqb has_prefix join drop_while trim_right trim lookup insert delete is_vanished is_denied
    parse_uint_loop parse_uint signed atoi format_digits format_uint trim_space split_fields fields
    index_byte last_index_byte stat_of_fields parse_stat_at parse_stat read_stat parse_statm
    read_statm status_key status_line status_loop parse_status read_status io_key io_line io_loop
    parse_io read_io parse_kb smaps_line smaps_loop parse_smaps read_smaps count_fds_loop count_fds
    max_fds_loop max_fds split non_empty parse_cmdline read_cmdline index read_exe uid_text
    user_name passwd_line passwd_loop ticks_to_seconds start_time_unix pages_to_bytes
    next_generation lookup_entry lookup_state put touch_entry touch prune_entries prune len delta
    keep is_kernel_thread after_slash base source_text fallback_name matches apply_rule try_rule
    first_name is_safe safe_byte sanitize add_err ◌>>=◌ itoa_loop itoa uid_string stat_result
    stat_step lookup_step cmdline_result cmdline_step resolve_user status_result status_step
    filter_step group_name new_process statm_result statm_step io_result io_step fds_result
    cached_fds fds_step smaps_result cached_smaps smaps_step new_state compute_deltas with_deltas
    put_step finish read_kept read_process Namer.name first_p first_s second_p second_s first_stat
    second_stat second_io held result scanner_after list_pids pids_of_names pid_of_name scan
    scan_listed walk read_all finish_scan should_scan_fds should_scan_smaps add64
ran = record {
  first_read = refl;
  second_read = refl;
  first_stat_read = refl;
  second_stat_read = refl;
  second_io_read = refl;
  first_io_off = refl;
  second_io_on = refl;
  same_start = refl;
  absent = tt;
  is_held = refl;
  held_start = refl;
  listed = refl;
  scanned = refl;
  one_returned = refl;
  one_gone = refl;
  lifetime = refl;
  ticks = refl;
}

abbrev rare : ScanConfig
rare = record first_env.config.scan { fd_scan_every = pos 4; smaps_scan_every = pos 4 }

scan_counts_example :
    (result.tally.scanned + left_out result.tally ≡ result.total)
    × (length result.tally.procs ≡ result.tally.scanned)
scan_counts_example = scan_counts first_env sane clock scanner result scanner_after ran.scanned

scan_entries_example :
    (result.state_entries ≤ result.total)
    × (result.state_entries ≡ len scanner_after.state)
    × All (λ e. e.1.generation ≡ scanner_after.state.gen) scanner_after.state.m
scan_entries_example =
    scan_entries first_env sane clock scanner result scanner_after (omega arith) tt ran.scanned

scan-read_all_example :
    scan first_env sane clock scanner
    ≡ finish_scan first_env clock 1 2
        (done tt, read_all (scan_env first_env 1) (1 ∷ 2 ∷ []) (start_st (start_scan scanner)))
unfolding add64
scan-read_all_example = scan-read_all first_env sane clock scanner (1 ∷ 2 ∷ []) sane-Runs ran.listed

scan-IsBounded_example :
    IsBounded first_env sane clock scanner (scan first_env sane clock scanner).1
scan-IsBounded_example = scan-IsBounded first_env sane clock scanner (omega arith) tt

scan-ends_example : (scan first_env sane clock scanner).0 ≢ out_of_fuel
scan-ends_example = scan-ends first_env sane clock scanner

first_reading_example : first_p.have_deltas ≡ false
first_reading_example = first_reading first_env 1 empty_st first_p first_s ran.first_read ran.absent

stat_deltas_example :
    (second_p.have_deltas ≡ true)
    × IsDifference second_p.d_utime_ticks second_stat.utime_ticks held.utime_ticks
    × IsDifference second_p.d_stime_ticks second_stat.stime_ticks held.stime_ticks
    × IsDifference second_p.d_minor_faults second_stat.minor_faults held.minor_faults
    × IsDifference second_p.d_major_faults second_stat.major_faults held.major_faults
stat_deltas_example =
    stat_deltas second_env 1 first_s second_p second_s ran.second_read held ran.is_held
      ran.held_start second_stat ran.second_stat_read

io_deltas_example :
    IsDifference second_p.d_read_bytes second_io.read_bytes held.read_bytes
    × IsDifference second_p.d_write_bytes second_io.write_bytes held.write_bytes
io_deltas_example =
    io_deltas second_env 1 first_s second_p second_s ran.second_read held ran.is_held ran.held_start
      second_io ran.second_io_read ran.second_io_on

recorded_example :
    (cur : PidState ℕ) × (lookup 1 first_s.states.m ≡ some cur)
    × (cur.start_ticks ≡ first_p.start_ticks)
    × (cur.generation ≡ empty_st.states.gen)
    × (cur.utime_ticks ≡ first_stat.utime_ticks)
    × (cur.stime_ticks ≡ first_stat.stime_ticks)
    × (first_p.have_io ≡ false → cur.read_bytes ≡ 0)
    × (first_p.have_io ≡ false → cur.write_bytes ≡ 0)
recorded_example =
    recorded first_env 1 empty_st first_p first_s ran.first_read first_stat ran.first_stat_read

recorded_others_example : lookup 2 first_s.states.m ≡ lookup 2 empty_st.states.m
recorded_others_example =
    recorded_others first_env 1 empty_st first_p first_s ran.first_read 2 (omega arith)

unread_then_read_example :
    (second_p.have_deltas ≡ true)
    × (second_p.d_read_bytes ≡ second_io.read_bytes)
    × (second_p.d_write_bytes ≡ second_io.write_bytes)
unread_then_read_example =
    unread_then_read first_env second_env 1 empty_st first_s first_s second_s first_p second_p
      first_stat second_io ran.first_read ran.first_stat_read ran.first_io_off refl ran.second_read
      ran.same_start ran.second_io_read ran.second_io_on

stacked_example :
    should_scan_fds first_env.config.scan 7 ≡ should_scan_smaps first_env.config.scan 7
stacked_example = stacked first_env.config.scan 2 refl refl refl (inl refl) 7

apart_example : (should_scan_fds rare 9 && should_scan_smaps rare 9) ≡ false
apart_example = apart rare 4 refl refl refl (omega arith) 9 (omega arith)

-- A machine that shows all files of process 1 but its command line, seen by a filter that ignores
-- kernel threads.
abbrev all_but_cmdline : ℕ → File → Result Bytes
all_but_cmdline pid File.cmdline = err denied
all_but_cmdline pid f = first_env.world.read_file pid f

abbrev hidden_env : Env ℕ Bytes Bytes
hidden_env = record first_env {
  filter = record first_env.filter { ignore_kernel = true; needs_cmdline = true };
  world = record first_env.world { read_file = all_but_cmdline };
}

hidden : read_cmdline hidden_env.world 1 ≡ err denied
unfolding read_cmdline
hidden = refl

-- The process passes the stat file and its owner, and it is the filter that takes it out.
reaches_filter : (read_process hidden_env 1 empty_st).1.res.ignored ≡ 1
unfolding eqb has_prefix join drop_while trim_right trim lookup insert delete is_vanished is_denied
    parse_uint_loop parse_uint signed atoi format_digits format_uint trim_space split_fields fields
    index_byte last_index_byte stat_of_fields parse_stat_at parse_stat read_stat parse_statm
    read_statm status_key status_line status_loop parse_status read_status io_key io_line io_loop
    parse_io read_io parse_kb smaps_line smaps_loop parse_smaps read_smaps count_fds_loop count_fds
    max_fds_loop max_fds split non_empty parse_cmdline read_cmdline index read_exe uid_text
    user_name passwd_line passwd_loop ticks_to_seconds start_time_unix pages_to_bytes
    next_generation lookup_entry lookup_state put touch_entry touch prune_entries prune len delta
    keep is_kernel_thread after_slash base source_text fallback_name matches apply_rule try_rule
    first_name is_safe safe_byte sanitize add_err ◌>>=◌ itoa_loop itoa uid_string stat_result
    stat_step lookup_step cmdline_result cmdline_step resolve_user status_result status_step
    filter_step group_name new_process statm_result statm_step io_result io_step fds_result
    cached_fds fds_step smaps_result cached_smaps smaps_step new_state compute_deltas with_deltas
    put_step finish read_kept read_process Namer.name list_pids pids_of_names pid_of_name scan
    scan_listed walk read_all finish_scan should_scan_fds should_scan_smaps add64
reaches_filter = refl

unread_cmdline_example : (read_process hidden_env 1 empty_st).0 ≡ none
unread_cmdline_example = unread_cmdline hidden_env 1 denied empty_st refl refl hidden
