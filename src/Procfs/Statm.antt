-- ===== src/Procfs/Statm.antt =====
-- internal/procfs/statm.go: the memory figures, in pages.
use cpu_process_exporter.Base.{ℕ, List, [], Bytes, ltb, if◌then◌else◌, length, get_or}
use cpu_process_exporter.Procfs.Error.{Result, ok, err, malformed, ◌>>=◌}
use cpu_process_exporter.Procfs.World.{World, statm}
use cpu_process_exporter.Procfs.Number.{parse_uint, max_u64, fields}

pub record Statm : Type 0 where
  pub size_pages : ℕ
  pub resident_pages : ℕ
  pub shared_pages : ℕ
  pub text_pages : ℕ
  pub data_pages : ℕ

abbrev pages_field : List Bytes → ℕ → ℕ
pages_field f i = (parse_uint max_u64 (get_or f i [])).0

unfoldable pub parse_statm : Bytes → Result Statm
parse_statm text =
    let f = fields text in
    if ltb (length f) 6
    then err malformed
    else ok (record {
      size_pages = pages_field f 0;
      resident_pages = pages_field f 1;
      shared_pages = pages_field f 2;
      text_pages = pages_field f 3;
      data_pages = pages_field f 5;
    })

unfoldable pub read_statm : World → ℕ → Result Statm
read_statm w pid = w.read_file pid statm >>= parse_statm
