-- ===== src/Procfs/Stat.antt =====
-- internal/procfs/stat.go: the parser of /proc/<pid>/stat.
use cpu_process_exporter.Base.{
  ℕ, ◌+◌, ◌-◌, not, List, [], ◌∷◌, Option, none, some, Bytes, ltb, if◌then◌else◌, length, get_or,
  take, drop,
}
use cpu_process_exporter.Base.Int.{ℤ}
use cpu_process_exporter.Procfs.Error.{Result, ok, err, malformed, ◌>>=◌}
use cpu_process_exporter.Procfs.World.{World, stat}
use cpu_process_exporter.Procfs.Number.{
  parse_uint, max_u64, atoi, trim_space, fields, index_byte, last_index_byte,
}

pub record Stat : Type 0 where
  pub pid : ℤ
  pub comm : Bytes
  pub state : ℕ
  pub ppid : ℤ
  pub minor_faults : ℕ
  pub major_faults : ℕ
  pub utime_ticks : ℕ
  pub stime_ticks : ℕ
  pub threads : ℤ
  pub start_ticks : ℕ
  pub vsize_bytes : ℕ
  pub rss_pages : ℕ

-- `field(n)` on the fields after comm; field N is rest[N-3], and every call has 3 ≤ n.
abbrev pub field : List Bytes → ℕ → Bytes
field rest n = get_or rest (n - 3) []

abbrev pub u64_field : List Bytes → ℕ → ℕ
u64_field rest n = (parse_uint max_u64 (field rest n)).0

abbrev pub int_field : List Bytes → ℕ → ℤ
int_field rest n = (atoi (field rest n)).0

-- `v[0]` if v is not empty; the zero byte otherwise.
abbrev pub state_byte : Bytes → ℕ
state_byte [] = 0
state_byte (c ∷ v) = c

unfoldable pub stat_of_fields : ℤ → Bytes → List Bytes → Stat
stat_of_fields pid comm rest = record {
  pid = pid;
  comm = comm;
  state = state_byte (field rest 3);
  ppid = int_field rest 4;
  minor_faults = u64_field rest 10;
  major_faults = u64_field rest 12;
  utime_ticks = u64_field rest 14;
  stime_ticks = u64_field rest 15;
  threads = int_field rest 20;
  start_ticks = u64_field rest 22;
  vsize_bytes = u64_field rest 23;
  rss_pages = u64_field rest 24;
}

-- The parser once both parentheses are found: `s[:open]`, `s[open+1:close]`, `s[close+1:]`.
unfoldable pub parse_stat_at : Bytes → ℕ → ℕ → Result Stat
unfolding stat_of_fields
parse_stat_at s open' close =
    if ltb close open'
    then err malformed
    else let (pid, fine) = atoi (trim_space (take open' s)) in
      let rest = fields (drop (close + 1) s) in
      if not fine
      then err malformed
      else if ltb (length rest) 20
      then err malformed
      else ok (stat_of_fields pid (take (close - (open' + 1)) (drop (open' + 1) s)) rest)

abbrev found_both : Bytes → Option ℕ → Option ℕ → Result Stat
found_both s none _ = err malformed
found_both s (some open') none = err malformed
found_both s (some open') (some close) = parse_stat_at s open' close

unfoldable pub parse_stat : Bytes → Result Stat
unfolding parse_stat_at
parse_stat s = found_both s (index_byte b'(' s) (last_index_byte b')' s)

-- A parse error is wrapped by `%w`; it stays no sentinel.
unfoldable pub read_stat : World → ℕ → Result Stat
read_stat w pid = w.read_file pid stat >>= parse_stat
