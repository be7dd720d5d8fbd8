-- ===== src/Procfs/Descriptors.antt =====
-- CountFDs on what Readdirnames returns for a directory that is read to its end.
use cpu_process_exporter.Base.{
  ℕ, ◌+◌, ◌<◌, ◌≡◌, List, [], ◌∷◌, Option, none, some, All, ◌==◌, if◌then◌else◌, arith,
}
use cpu_process_exporter.Procfs.Error.{Error, ok, err}
use cpu_process_exporter.Procfs.Fd.{count_fds_loop}

abbrev pub sum : List ℕ → ℕ
sum [] = 0
sum (n ∷ ns) = n + sum ns

-- The calls: batches that hold names, then one that holds none and ends with an error.
abbrev pub batches : List ℕ → Error → List (ℕ × Option Error)
batches [] e = (0, some e) ∷ []
batches (n ∷ ns) e = (n, none) ∷ batches ns e

-- Read in batches that hold names, with an error behind the last of them, io.EOF or another, the
-- directory counts all the names read so far; only where there is not one name the error is returned.
pub count_fds_loop-batches :
    (total : ℕ) (ns : List ℕ) (e : Error)
    → All (λ n. 0 < n) ns
    → count_fds_loop total (batches ns e)
      ≡ (if total + sum ns == 0 then err e else ok (total + sum ns))
unfolding count_fds_loop
count_fds_loop-batches total [] e h = ground arith
count_fds_loop-batches total (n ∷ ns) e h =
    ground (arith, count_fds_loop-batches (total + n) ns e h.1)
