-- ===== src/Procfs/Fd.antt =====
-- internal/procfs/fd.go: the count of open descriptors, and the limit.
use cpu_process_exporter.Base.{
  ℕ, ◌+◌, ◌&&◌, not, List, [], ◌∷◌, Option, none, some, Bytes, codes, eqb, has_prefix, ◌==◌,
  if◌then◌else◌, drop,
}
use cpu_process_exporter.Base.Int.{ℤ, negsuc}
use cpu_process_exporter.Procfs.Error.{Error, Result, ok, err, malformed, ◌>>=◌}
use cpu_process_exporter.Procfs.World.{World, limits, checked}
use cpu_process_exporter.Procfs.Number.{atoi, fields}

-- io.EOF is none of the errors that the program asks for.
abbrev pub eof : Error
eof = malformed

-- The loop, on what each call of Readdirnames returns.
unfoldable pub count_fds_loop : ℕ → List (ℕ × Option Error) → Result ℕ
count_fds_loop total [] = if total == 0 then err eof else ok total
count_fds_loop total ((names, some e) ∷ rest) =
    if names == 0 && total + names == 0 then err e else ok (total + names)
count_fds_loop total ((names, none) ∷ rest) =
    let later = count_fds_loop (total + names) rest in
    if names == 0 then ok (total + names) else later

unfoldable pub count_fds : World → ℕ → Result ℕ
unfolding count_fds_loop
count_fds w pid = w.open_fd_dir pid >>= count_fds_loop 0

abbrev minus_one : ℤ
minus_one = negsuc 0

-- The soft limit from the columns behind the name.
abbrev pub soft_limit : List Bytes → ℤ
soft_limit [] = minus_one
soft_limit (f ∷ fs) =
    if eqb f (codes "unlimited")
    then minus_one
    else (let (v, fine) = atoi f in if fine then v else minus_one)

unfoldable pub max_fds_loop : Option Error → List Bytes → Result ℤ
max_fds_loop scan_err [] = checked scan_err minus_one
max_fds_loop scan_err (line ∷ rest) =
    let later = max_fds_loop scan_err rest in
    if not (has_prefix line (codes "Max open files"))
    then later
    else ok (soft_limit (fields (drop 14 line)))

unfoldable pub max_fds : World → ℕ → Result ℤ
unfolding max_fds_loop
max_fds w pid = w.scan_file pid limits >>= λ l. max_fds_loop l.scan_err l.lines
