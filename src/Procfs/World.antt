-- ===== src/Procfs/World.antt =====
-- What the operating system answers during one scan. The scanner reads each file of a process at most
-- once in a scan, so the answer is a function of the process and the file. Paths are joined to
-- `scan.proc_path` by the source; here a file is named by its process and its last component.
use cpu_process_exporter.Base.{ℕ, List, Option, Bytes}
use cpu_process_exporter.Procfs.Error.{Error, Result}

pub data File : Type 0 where
  stat cmdline statm status io limits smaps smaps_rollup : File

-- What a bufio.Scanner yields: the lines, then what `Err` says. A read error comes after the lines
-- before it.
pub record Lines : Type 0 where
  pub lines : List Bytes
  pub scan_err : Option Error

pub record World : Type 0 where
  -- os.Open of the proc path and Readdirnames(-1)
  pub proc_names : Result (List Bytes)
  -- os.ReadFile
  pub read_file : ℕ → File → Result Bytes
  -- os.Open, read through a bufio.Scanner
  pub scan_file : ℕ → File → Result Lines
  -- os.Readlink of the exe link
  pub read_exe_link : ℕ → Result Bytes
  -- os.Open of the fd directory, then what each Readdirnames(1024) returns: how many names, and an
  -- error. The batches end where the directory does, with no names and io.EOF.
  pub open_fd_dir : ℕ → Result (List (ℕ × Option Error))

-- `sc.Err()` behind a loop that has read every line.
abbrev pub checked {ℓ} : {A : Type ℓ} → Option Error → A → Result A
checked Option.none a = Result.ok a
checked (Option.some e) a = Result.err e
