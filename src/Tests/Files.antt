-- ===== src/Tests/Files.antt =====
-- The theorems of the readers at concrete texts.
use cpu_process_exporter.Base.{
  inl, inr, List, ℕ, ◌≤◌, ◌≡◌, refl, true, false, any, [], ◌∷◌, map, Bytes, codes, drop_while,
  trim_right, trim, length, ◌==◌, arith,
}
use cpu_process_exporter.Base.Int.{pos}
use cpu_process_exporter.Procfs.Error.{ok, malformed}
use cpu_process_exporter.Procfs.Number.{
  parse_uint_loop, parse_uint, signed, atoi, trim_space, split_fields, fields, format_uint,
}
use cpu_process_exporter.Procfs.Stat.{stat_of_fields, parse_stat}
use cpu_process_exporter.Procfs.Comm.{Lacks, stat_line, parse_stat-stat_line}
use cpu_process_exporter.Procfs.Digits.{itoa-format_uint}
use cpu_process_exporter.Procfs.Descriptors.{batches, count_fds_loop-batches}
use cpu_process_exporter.Procfs.RoundTrip.{
  Entry, process, other, name_of, pids_of_names-format_uint,
}
use cpu_process_exporter.Procfs.Fd.{count_fds_loop}
use cpu_process_exporter.Procfs.Pids.{pids_of_names}
use cpu_process_exporter.Scan.Steps.{itoa}

-- A process that calls itself `a) R (b`.
abbrev tricky : Bytes
tricky = codes "a) R (b"

abbrev figures : Bytes
figures = codes " S 0 1 1 0 -1 64 10 0 2 0 30 4 0 0 20 0 1 0 9 64 5"

Lacks-any : (b : ℕ) (s : Bytes) → any (λ c. c == b) s ≡ false → Lacks b s
Lacks-any b [] h = tt
Lacks-any b (c ∷ s) h = (ground arith, Lacks-any b s (ground arith))

read_number : atoi (trim_space (codes "12 ")) ≡ (pos 12, true)
unfolding atoi parse_uint parse_uint_loop signed trim_space trim drop_while trim_right
read_number = refl

many_fields : 20 ≤ length (fields figures)
unfolding fields split_fields
many_fields = omega arith

parse_stat-stat_line_example :
    parse_stat (stat_line (codes "12 ") tricky figures)
    ≡ ok (stat_of_fields (pos 12) tricky (fields figures))
parse_stat-stat_line_example =
    parse_stat-stat_line (codes "12 ") tricky figures (pos 12) (Lacks-any b'(' (codes "12 ") refl)
      (Lacks-any b')' figures refl) read_number many_fields

itoa-format_uint_example : itoa 1000 ≡ format_uint 1000
itoa-format_uint_example = itoa-format_uint 1000

count_fds_loop-batches_example : count_fds_loop 0 (batches (1024 ∷ 3 ∷ []) malformed) ≡ ok 1027
count_fds_loop-batches_example =
    count_fds_loop-batches 0 (1024 ∷ 3 ∷ []) malformed (omega arith, (omega arith, tt))

-- Two processes among a link, a file and a directory whose name begins with a digit.
abbrev proc_entries : List Entry
proc_entries =
    other (codes "self")
    ∷ process 1
    ∷ other (codes "meminfo")
    ∷ other (codes "9p")
    ∷ process 42
    ∷ []

pids_of_names-format_uint_example : pids_of_names (map name_of proc_entries) ≡ (1 ∷ 42 ∷ [])
pids_of_names-format_uint_example = pids_of_names-format_uint proc_entries (
  inr (inl refl),
  (
    (omega arith, omega arith),
    (inr (inl refl), (inr (inr (inl refl)), ((omega arith, omega arith), tt))),
  ),
)
