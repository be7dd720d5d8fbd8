-- ===== src/Procfs/Pids.antt =====
-- internal/procfs/procfs.go: the listing of the processes.
use cpu_process_exporter.Base.{
  ℕ, Bool, ◌&&◌, List, [], ◌∷◌, Option, none, some, Bytes, ltb, if◌then◌else◌,
}
use cpu_process_exporter.Base.Int.{ℤ, pos, negsuc}
use cpu_process_exporter.Procfs.Error.{Result, ok, ◌>>=◌}
use cpu_process_exporter.Procfs.World.{World}
use cpu_process_exporter.Procfs.Number.{atoi, is_digit}

-- `err != nil || pid <= 0` skips the name.
abbrev pub positive_pid : ℤ × Bool → Option ℕ
positive_pid (pos n, fine) = if fine && ltb 0 n then some n else none
positive_pid (negsuc n, fine) = none

-- The PID that a name of the directory stands for.
unfoldable pub pid_of_name : Bytes → Option ℕ
pid_of_name [] = none
pid_of_name (c ∷ s) = if is_digit c then positive_pid (atoi (c ∷ s)) else none

abbrev add_pid : Option ℕ → List ℕ → List ℕ
add_pid none pids = pids
add_pid (some pid) pids = pid ∷ pids

unfoldable pub pids_of_names : List Bytes → List ℕ
unfolding pid_of_name
pids_of_names [] = []
pids_of_names (n ∷ ns) = add_pid (pid_of_name n) (pids_of_names ns)

unfoldable pub list_pids : World → Result (List ℕ)
unfolding pids_of_names
list_pids w = w.proc_names >>= λ names. ok (pids_of_names names)
