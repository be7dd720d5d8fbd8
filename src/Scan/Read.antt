-- ===== src/Scan/Read.antt =====
-- readProcess of internal/scan/scan.go.
use cpu_process_exporter.Base.{ℕ, Option, Bytes, List}
use cpu_process_exporter.Procfs.Stat.{Stat}
use cpu_process_exporter.Procfs.Io.{Io}
use cpu_process_exporter.Procfs.Status.{Status}
use cpu_process_exporter.StateMap.{PidState}
use cpu_process_exporter.Scan.State.{Process, Env, Step, pure, ◌>>=◌}
use cpu_process_exporter.Scan.Steps.{
  stat_step, lookup_step, cmdline_step, status_step, filter_input, filter_step, group_name,
  new_process,
}
use cpu_process_exporter.Scan.Readings.{
  statm_step, io_step, fds_step, smaps_step, is_read, new_state, with_deltas, put_step,
}

module _ {F R M : Type 0} (env : Env F R M) (pid : ℕ) where
  -- Behind the readings: the new state, the deltas, and Put.
  unfoldable pub finish :
      Stat → Option (PidState F) → Option Status → Option Io → Process F → Step F (Process F)
  unfolding ◌>>=◌
  finish st prev status io p =
      let cur = new_state st p status io in put_step pid cur >>= λ _. pure (with_deltas p cur prev)

  -- The readings of a process that the filter keeps.
  unfoldable pub read_kept :
      Stat → Option (PidState F) → List Bytes → ℕ × Bytes × Option Status → Step F (Process F)
  unfolding ◌>>=◌
  read_kept st prev cmdline (uid, user, status) = do
    p ←
        statm_step env pid
          (new_process env pid st (group_name env pid st prev cmdline) uid user status)
    io ← io_step env pid
    p ← fds_step env pid (record p { have_io = is_read io }) prev
    p ← smaps_step env pid p prev
    finish st prev status io p

  unfoldable pub read_process : Step F (Process F)
  unfolding ◌>>=◌
  read_process = do
    st ← stat_step env pid
    prev ← lookup_step env pid st
    cmdline ← cmdline_step env pid prev
    owner ← status_step env pid prev
    filter_step env pid (filter_input st cmdline owner.1) >>= λ _. read_kept st prev cmdline.0 owner
