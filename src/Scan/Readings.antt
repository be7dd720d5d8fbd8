-- ===== src/Scan/Readings.antt =====
-- The readings that readProcess adds to a process it keeps: statm, io, descriptors, proportional
-- memory, and at the end the differences against the previous state.
use cpu_process_exporter.Base.{ℕ, Bool, true, false, not, Option, none, some, codes, if◌then◌else◌}
use cpu_process_exporter.Base.Int.{ℤ, pos, negsuc, pos_part, ltb_ℤ}
use cpu_process_exporter.Float.{Float64}
use cpu_process_exporter.Procfs.Error.{Result, ok, err, is_vanished, is_denied}
use cpu_process_exporter.Procfs.Fd.{count_fds, max_fds}
use cpu_process_exporter.Procfs.Io.{Io, read_io}
use cpu_process_exporter.Procfs.Smaps.{Smaps, read_smaps}
use cpu_process_exporter.Procfs.Stat.{Stat}
use cpu_process_exporter.Procfs.Statm.{Statm, read_statm}
use cpu_process_exporter.Procfs.Status.{Status}
use cpu_process_exporter.Procfs.System.{pages_to_bytes}
use cpu_process_exporter.StateMap.{PidState, put, delta}
use cpu_process_exporter.Scan.State.{Process, Env, Step, pure, stop, note, count_vanished}

module _ {F R M : Type 0} (env : Env F R M) (pid : ℕ) where
  unfoldable pub statm_result : Process F → Result Statm → Step F (Process F)
  statm_result p (ok sm) = pure (record p {
    rss_bytes = pages_to_bytes env.system sm.resident_pages;
    vsize_bytes = pages_to_bytes env.system sm.size_pages;
    shared_bytes = pages_to_bytes env.system sm.shared_pages;
    data_bytes = pages_to_bytes env.system sm.data_pages;
  })
  statm_result p (err e) = if is_vanished e then stop count_vanished else note (codes "statm") p

  unfoldable pub statm_step : Process F → Step F (Process F)
  unfolding statm_result
  statm_step p = statm_result p (read_statm env.world pid)

  unfoldable pub io_result : Result Io → Step F (Option Io)
  io_result (ok io) = pure (some io)
  io_result (err e) =
      if is_vanished e
      then stop count_vanished
      else if not (is_denied e)
      then note (codes "io") none
      else pure none

  -- The byte counters; p.HaveIO is that they are there.
  unfoldable pub io_step : Step F (Option Io)
  unfolding io_result
  io_step = if env.config.scan.read_io then io_result (read_io env.world pid) else pure none

  abbrev limit_of : Result ℤ → ℤ
  limit_of (ok max) = max
  limit_of (err e) = negsuc 0

  abbrev pub fd_ratio_of : Float64 F → ℤ → ℤ → F
  fd_ratio_of fl fds max =
      if ltb_ℤ (pos 0) max
      then fl.div_f (fl.of_nat (pos_part fds)) (fl.of_nat (pos_part max))
      else fl.zero_f

  unfoldable pub fds_result : Process F → Result ℕ → Step F (Process F)
  fds_result p (ok fds) =
      let max = limit_of (max_fds env.world pid) in
      pure (record p {
        open_fds = pos fds;
        max_fds = max;
        fd_ratio = fd_ratio_of env.float (pos fds) max;
        have_fds = true;
      })
  fds_result p (err e) =
      if is_vanished e
      then stop count_vanished
      else if not (is_denied e)
      then note (codes "fd") p
      else pure p

  -- Between two descriptor scans the values of the previous state are reported.
  unfoldable pub cached_fds : Process F → Option (PidState F) → Process F
  cached_fds p none = p
  cached_fds p (some prev) =
      if prev.have_fds
      then record p {
        open_fds = prev.open_fds;
        max_fds = prev.max_fds;
        fd_ratio = prev.fd_ratio;
        have_fds = true;
      }
      else p

  unfoldable pub fds_step : Process F → Option (PidState F) → Step F (Process F)
  unfolding fds_result cached_fds
  fds_step p prev =
      if env.do_fds then fds_result p (count_fds env.world pid) else pure (cached_fds p prev)

  unfoldable pub smaps_result : Process F → Result Smaps → Step F (Process F)
  smaps_result p (ok sm) =
      pure
        (record p { pss_bytes = sm.pss_bytes; swap_pss_bytes = sm.swap_pss_bytes; have_pss = true })
  smaps_result p (err e) =
      if is_vanished e
      then stop count_vanished
      else if not (is_denied e)
      then note (codes "smaps") p
      else pure p

  unfoldable pub cached_smaps : Process F → Option (PidState F) → Process F
  cached_smaps p none = p
  cached_smaps p (some prev) =
      if prev.have_pss
      then record p {
        pss_bytes = prev.pss_bytes;
        swap_pss_bytes = prev.swap_pss_bytes;
        have_pss = true;
      }
      else p

  unfoldable pub smaps_step : Process F → Option (PidState F) → Step F (Process F)
  unfolding smaps_result cached_smaps
  smaps_step p prev =
      if not env.config.scan.read_smaps
      then pure p
      else if env.do_smaps
      then smaps_result p (read_smaps env.world pid env.system.smaps_rollup)
      else pure (cached_smaps p prev)

abbrev pub is_read : {A : Type 0} → Option A → Bool
is_read none = false
is_read (some a) = true

abbrev pub status_count : (Status → ℕ) → Option Status → ℕ
status_count f none = 0
status_count f (some status) = f status

abbrev pub io_count : (Io → ℕ) → Option Io → ℕ
io_count f none = 0
io_count f (some io) = f io

module _ {F : Type 0} where
  -- The new state `cur`, before `Put` stamps it.
  unfoldable pub new_state : Stat → Process F → Option Status → Option Io → PidState F
  new_state st p status io = record {
    start_ticks = st.start_ticks;
    generation = 0;
    utime_ticks = st.utime_ticks;
    stime_ticks = st.stime_ticks;
    minor_faults = st.minor_faults;
    major_faults = st.major_faults;
    vol_ctx_sw = status_count (λ s. s.vol_ctx_sw) status;
    invol_ctx_sw = status_count (λ s. s.invol_ctx_sw) status;
    read_bytes = io_count (λ i. i.read_bytes) io;
    write_bytes = io_count (λ i. i.write_bytes) io;
    name = p.name;
    user = p.user;
    uid = p.uid;
    open_fds = p.open_fds;
    max_fds = p.max_fds;
    fd_ratio = p.fd_ratio;
    have_fds = p.have_fds;
    pss_bytes = p.pss_bytes;
    swap_pss_bytes = p.swap_pss_bytes;
    have_pss = p.have_pss;
  }

  unfoldable pub compute_deltas : Process F → PidState F → PidState F → Process F
  compute_deltas p cur prev = record p {
    d_utime_ticks = delta cur.utime_ticks prev.utime_ticks;
    d_stime_ticks = delta cur.stime_ticks prev.stime_ticks;
    d_minor_faults = delta cur.minor_faults prev.minor_faults;
    d_major_faults = delta cur.major_faults prev.major_faults;
    d_vol_ctx_sw = delta cur.vol_ctx_sw prev.vol_ctx_sw;
    d_invol_ctx_sw = delta cur.invol_ctx_sw prev.invol_ctx_sw;
    d_read_bytes = delta cur.read_bytes prev.read_bytes;
    d_write_bytes = delta cur.write_bytes prev.write_bytes;
  }

  unfoldable pub with_deltas : Process F → PidState F → Option (PidState F) → Process F
  unfolding compute_deltas
  with_deltas p cur none = p
  with_deltas p cur (some prev) = record (compute_deltas p cur prev) { have_deltas = true }

  unfoldable pub put_step : ℕ → PidState F → Step F (Unit {0})
  put_step pid cur s = (some tt, record s { states = put s.states pid cur })
