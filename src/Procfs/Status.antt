-- ===== src/Procfs/Status.antt =====
-- internal/procfs/status.go: the owner, the context switches and the swap of a process.
use cpu_process_exporter.Base.{
  ℕ, ◌+◌, List, [], ◌∷◌, Option, none, some, Bytes, codes, eqb, ◌==◌, if◌then◌else◌, take, drop,
  mul64,
}
use cpu_process_exporter.Procfs.Error.{Error, Result, ok, ◌>>=◌}
use cpu_process_exporter.Procfs.World.{World, Lines, status, checked}
use cpu_process_exporter.Procfs.Number.{
  parse_uint, max_u64, max_u32, fields, trim_space, index_byte,
}

pub record Status : Type 0 where
  pub uid : ℕ
  pub gid : ℕ
  pub vol_ctx_sw : ℕ
  pub invol_ctx_sw : ℕ
  pub swap_bytes : ℕ

-- The loop's variables `st` and `found`.
pub record Found : Type 0 where
  pub st : Status
  pub found : ℕ

-- The first field parsed, `some` where the source stores it.
abbrev first_number : ℕ → List Bytes → Option ℕ
first_number max [] = none
first_number max (f ∷ fs) = let (v, fine) = parse_uint max f in if fine then some v else none

abbrev whole_number : Bytes → Option ℕ
whole_number val = let (v, fine) = parse_uint max_u64 val in if fine then some v else none

abbrev store : Found → Option ℕ → (ℕ → Status) → Found
store f none set = f
store f (some v) set = record { st = set v; found = f.found + 1 }

-- The switch on the key.
unfoldable pub status_key : Found → Bytes → Bytes → Found
status_key f key val =
    if eqb key (codes "Uid")
    then store f (first_number max_u32 (fields val)) (λ v. record (f.st) { uid = v })
    else if eqb key (codes "Gid")
    then store f (first_number max_u32 (fields val)) (λ v. record (f.st) { gid = v })
    else if eqb key (codes "voluntary_ctxt_switches")
    then store f (whole_number val) (λ v. record (f.st) { vol_ctx_sw = v })
    else if eqb key (codes "nonvoluntary_ctxt_switches")
    then store f (whole_number val) (λ v. record (f.st) { invol_ctx_sw = v })
    else if eqb key (codes "VmSwap")
    then store f (first_number max_u64 (fields val))
        (λ v. record (f.st) { swap_bytes = mul64 v 1024 })
    else f

abbrev status_line_at : Found → Bytes → Option ℕ → Found
status_line_at f line none = f
status_line_at f line (some colon) =
    status_key f (take colon line) (trim_space (drop (colon + 1) line))

unfoldable pub status_line : Found → Bytes → Found
unfolding status_key
status_line f line = status_line_at f line (index_byte b':' line)

-- A line with no colon is skipped before the test `found == 5`, which then cannot hold: it would have
-- ended the loop on the line that made it hold.
unfoldable pub status_loop : Option Error → Found → List Bytes → Result Status
status_loop scan_err f [] = checked scan_err f.st
status_loop scan_err f (line ∷ rest) =
    let f' = status_line f line in
    let later = status_loop scan_err f' rest in if f'.found == 5 then ok f'.st else later

abbrev pub no_status : Status
no_status = record { uid = 0; gid = 0; vol_ctx_sw = 0; invol_ctx_sw = 0; swap_bytes = 0 }

unfoldable pub parse_status : Lines → Result Status
unfolding status_loop status_line
parse_status l = status_loop l.scan_err (record { st = no_status; found = 0 }) l.lines

unfoldable pub read_status : World → ℕ → Result Status
read_status w pid = w.scan_file pid status >>= parse_status
