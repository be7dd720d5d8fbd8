-- ===== src/Aggregate/Accums.antt =====
-- The accumulators of internal/aggregate/aggregate.go: accumulate and prune.
use cpu_process_exporter.Base.{
  ℕ, suc, ◌-◌, not, List, [], ◌∷◌, Option, none, some, lookup, insert, nat_eq, bytes_eq,
  if◌then◌else◌, add64, i64_half,
}
use cpu_process_exporter.Base.Int.{ℤ, pos, negsuc, ltb_ℤ, leb_ℤ, sub_ℕ}
use cpu_process_exporter.Float.{Float64}
use cpu_process_exporter.Procfs.System.{System, ticks_to_seconds}
use cpu_process_exporter.Scan.State.{Process}
use cpu_process_exporter.Aggregate.Types.{Key, key_eq, Accum}

-- now.Sub(last): the difference, saturated to an int64.
abbrev pub max_duration : ℕ
max_duration = i64_half - 1

unfoldable pub sub_time : ℕ → ℕ → ℤ
sub_time now last =
    let d = sub_ℕ now last in
    if ltb_ℤ (pos max_duration) d
    then pos max_duration
    else if ltb_ℤ d (negsuc max_duration)
    then negsuc max_duration
    else d

module _ {F : Type 0} where
  abbrev pub key_of : Process F → Key
  key_of p = record { name = p.name; user = p.user }

  -- The loop of prune: what stays, and how many went.
  unfoldable pub prune_accums : ℕ → ℤ → List (Key × Accum F) → List (Key × Accum F) × ℕ
  prune_accums now retention [] = ([], 0)
  prune_accums now retention ((k, acc) ∷ m) =
      let (kept, n) = prune_accums now retention m in
      if ltb_ℤ retention (sub_time now acc.last_seen) then (kept, suc n) else ((k, acc) ∷ kept, n)

  unfoldable pub prune : ℕ → ℤ → List (Key × Accum F) → List (Key × Accum F) × ℕ
  unfolding prune_accums
  prune now retention m = if leb_ℤ retention (pos 0) then (m, 0) else prune_accums now retention m

module _ {F : Type 0} (fl : Float64 F) (sys : System F) where
  abbrev pub no_accum : Accum F
  no_accum = record {
    utime_seconds = fl.zero_f;
    stime_seconds = fl.zero_f;
    minor_faults = 0;
    major_faults = 0;
    vol_ctx_sw = 0;
    invol_ctx_sw = 0;
    read_bytes = 0;
    write_bytes = 0;
    last_seen = 0;
  }

  abbrev pub or_no_accum : Option (Accum F) → Accum F
  or_no_accum none = no_accum
  or_no_accum (some acc) = acc

  -- What accumulate does to the accumulator of the group.
  unfoldable pub add_process : ℕ → Process F → Accum F → Accum F
  add_process now p acc = if not p.have_deltas then record acc { last_seen = now } else record acc {
    last_seen = now;
    utime_seconds = fl.add_f acc.utime_seconds (ticks_to_seconds fl sys p.d_utime_ticks);
    stime_seconds = fl.add_f acc.stime_seconds (ticks_to_seconds fl sys p.d_stime_ticks);
    minor_faults = add64 acc.minor_faults p.d_minor_faults;
    major_faults = add64 acc.major_faults p.d_major_faults;
    vol_ctx_sw = if p.have_status then add64 acc.vol_ctx_sw p.d_vol_ctx_sw else acc.vol_ctx_sw;
    invol_ctx_sw =
        if p.have_status then add64 acc.invol_ctx_sw p.d_invol_ctx_sw else acc.invol_ctx_sw;
    read_bytes = if p.have_io then add64 acc.read_bytes p.d_read_bytes else acc.read_bytes;
    write_bytes = if p.have_io then add64 acc.write_bytes p.d_write_bytes else acc.write_bytes;
  }

  unfoldable pub accumulate : ℕ → List (Key × Accum F) → Process F → List (Key × Accum F)
  accumulate now accums p =
      insert (key_of p) (add_process now p (or_no_accum (lookup (key_of p) accums))) accums

  unfoldable pub fold_accums : ℕ → List (Key × Accum F) → List (Process F) → List (Key × Accum F)
  fold_accums now accums [] = accums
  fold_accums now accums (p ∷ ps) = fold_accums now (accumulate now accums p) ps
