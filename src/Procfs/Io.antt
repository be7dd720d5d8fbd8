-- ===== src/Procfs/Io.antt =====
-- internal/procfs/io.go: the byte counters of a process.
use cpu_process_exporter.Base.{
  ℕ, ◌+◌, List, [], ◌∷◌, Option, none, some, Bytes, codes, eqb, if◌then◌else◌, take, drop,
}
use cpu_process_exporter.Procfs.Error.{Result, ◌>>=◌}
use cpu_process_exporter.Procfs.World.{World, Lines, io, checked}
use cpu_process_exporter.Procfs.Number.{parse_uint, max_u64, trim_space, index_byte}

pub record Io : Type 0 where
  pub read_bytes : ℕ
  pub write_bytes : ℕ
  pub sysc_r : ℕ
  pub sysc_w : ℕ

unfoldable pub io_key : Io → Bytes → ℕ → Io
io_key i key val =
    if eqb key (codes "read_bytes")
    then record i { read_bytes = val }
    else if eqb key (codes "write_bytes")
    then record i { write_bytes = val }
    else if eqb key (codes "syscr")
    then record i { sysc_r = val }
    else if eqb key (codes "syscw")
    then record i { sysc_w = val }
    else i

abbrev io_line_at : Io → Bytes → Option ℕ → Io
io_line_at i line none = i
io_line_at i line (some colon) =
    let (val, fine) = parse_uint max_u64 (trim_space (drop (colon + 1) line)) in
    if fine then io_key i (take colon line) val else i

unfoldable pub io_line : Io → Bytes → Io
unfolding io_key
io_line i line = io_line_at i line (index_byte b':' line)

unfoldable pub io_loop : Io → List Bytes → Io
io_loop i [] = i
io_loop i (line ∷ rest) = io_loop (io_line i line) rest

unfoldable pub parse_io : Lines → Result Io
unfolding io_loop io_line
parse_io l =
    checked l.scan_err
      (io_loop (record { read_bytes = 0; write_bytes = 0; sysc_r = 0; sysc_w = 0 }) l.lines)

unfoldable pub read_io : World → ℕ → Result Io
read_io w pid = w.scan_file pid io >>= parse_io
