-- ===== src/Procfs/Smaps.antt =====
-- internal/procfs/smaps.go: the proportional memory figures.
use cpu_process_exporter.Base.{
  ℕ, Bool, List, [], ◌∷◌, Bytes, codes, has_prefix, if◌then◌else◌, drop, add64, mul64,
}
use cpu_process_exporter.Procfs.Error.{Result, ◌>>=◌}
use cpu_process_exporter.Procfs.World.{World, Lines, smaps, smaps_rollup, checked}
use cpu_process_exporter.Procfs.Number.{parse_uint, max_u64, fields}

pub record Smaps : Type 0 where
  pub pss_bytes : ℕ
  pub swap_pss_bytes : ℕ

abbrev kb_of : List Bytes → ℕ
kb_of [] = 0
kb_of (f ∷ fs) = let (v, fine) = parse_uint max_u64 f in if fine then mul64 v 1024 else 0

unfoldable pub parse_kb : Bytes → ℕ
parse_kb s = kb_of (fields s)

unfoldable pub smaps_line : Smaps → Bytes → Smaps
unfolding parse_kb
smaps_line out line =
    if has_prefix line (codes "Pss:")
    then record out { pss_bytes = add64 out.pss_bytes (parse_kb (drop 4 line)) }
    else if has_prefix line (codes "SwapPss:")
    then record out { swap_pss_bytes = add64 out.swap_pss_bytes (parse_kb (drop 8 line)) }
    else out

unfoldable pub smaps_loop : Smaps → List Bytes → Smaps
smaps_loop out [] = out
smaps_loop out (line ∷ rest) = smaps_loop (smaps_line out line) rest

unfoldable pub parse_smaps : Lines → Result Smaps
unfolding smaps_loop smaps_line
parse_smaps l =
    checked l.scan_err (smaps_loop (record { pss_bytes = 0; swap_pss_bytes = 0 }) l.lines)

unfoldable pub read_smaps : World → ℕ → Bool → Result Smaps
read_smaps w pid use_rollup =
    w.scan_file pid (if use_rollup then smaps_rollup else smaps) >>= parse_smaps
