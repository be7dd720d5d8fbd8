-- ===== src/Config/Bounds.antt =====
-- The bounds of a configuration that Load accepts, as the scanner relies on them.
use native.Mathlib.Nat.{mul-le-mul, div-le_self}
use cpu_process_exporter.Base.{
  ℕ, ◌*◌, ◌/◌, ◌%◌, ◌≤◌, ◌<◌, ◌≡◌, refl, false, ◌&&◌, [], Bytes, arith, u64_mod, i64_half,
}
use cpu_process_exporter.Base.Int.{ℤ, pos, negsuc, ltb_ℤ, bits64, of_bits64}
use cpu_process_exporter.Config.{ScanConfig, Config}
use cpu_process_exporter.Config.Accepted.{append-eq-nil, check-eq-nil, load-IsAccepted}
use cpu_process_exporter.Config.Defaults.{second}
use cpu_process_exporter.Config.Load.{
  PathInfo, Files, Problem, ok, check, check_path, check_scan, mul_duration, estimate, validate,
  load,
}
use cpu_process_exporter.Regexp.{Regexp}
use cpu_process_exporter.Scan.Loop.{batch_of}

-- The bounds: a batch has 1 to 10000 processes and the scanner takes it as it is; a sleep lasts 0 to 1
-- seconds and an interval at least one; the sleeps of a scan of 2000 processes fit into the interval.
pub record IsWithin (s : ScanConfig) : Type 0 where
  pub batch : ℕ
  pub sleep : ℕ
  pub interval : ℕ
  pub batch_is : s.batch_size ≡ pos batch
  pub sleep_is : s.batch_sleep ≡ pos sleep
  pub interval_is : s.interval ≡ pos interval
  pub batch_taken : batch_of s ≡ batch
  pub batch_pos : 1 ≤ batch
  pub batch_small : batch ≤ 10000
  pub sleep_small : sleep ≤ second
  pub interval_large : second ≤ interval
  pub sleeps_fit : (2000 / batch) * sleep ≤ interval

is_pos : (n : ℤ) (k : ℕ) → ltb_ℤ n (pos k) ≡ false → (m : ℕ) × (n ≡ pos m) × (k ≤ m)
is_pos (pos m) k h = (m, refl, ground arith)
is_pos (negsuc m) k h = absurd (ground arith)

of_bits64_small : (m : ℕ) → m < i64_half → of_bits64 (m % u64_mod) ≡ pos m
unfolding of_bits64
of_bits64_small m h = ground arith

mul_duration-pos : (n d : ℕ) → n * d < i64_half → d < u64_mod → mul_duration n (pos d) ≡ pos (n * d)
unfolding mul_duration bits64
mul_duration-pos n d h k =
    let same : d % u64_mod ≡ d = omega arith in rw same (of_bits64_small (n * d) h)

fits :
    (s : ScanConfig) (i b d total : ℕ)
    → s.interval ≡ pos i
    → s.batch_size ≡ pos b
    → s.batch_sleep ≡ pos d
    → mul_duration (2000 / b) (pos d) ≡ pos total
    → 1 ≤ b
    → (ltb_ℤ (pos 0) s.batch_size && ltb_ℤ s.interval (estimate s)) ≡ false
    → total ≤ i
fits s i b d total i_is b_is d_is exact b_pos h = ground arith

within :
    (s : ScanConfig)
    → ltb_ℤ s.interval (pos second) ≡ false
    → ltb_ℤ s.batch_size (pos 1) ≡ false
    → ltb_ℤ (pos 10000) s.batch_size ≡ false
    → ltb_ℤ s.batch_sleep (pos 0) ≡ false
    → ltb_ℤ (pos second) s.batch_sleep ≡ false
    → (ltb_ℤ (pos 0) s.batch_size && ltb_ℤ s.interval (estimate s)) ≡ false
    → IsWithin s
within s h1 h2 h3 h4 h5 h6 =
    let (i, i_is, i_ge) = is_pos s.interval second h1 in
    let (b, b_is, b_ge) = is_pos s.batch_size 1 h2 in
    let (d, d_is, d_ge) = is_pos s.batch_sleep 0 h4 in
    let d_le : d ≤ second = ground arith in
    let b_le : b ≤ 10000 = ground arith in
    let few : (2000 / b) * d ≤ 2000 * second = mul-le-mul (div-le_self 2000 b) d_le in
    let exact : mul_duration (2000 / b) (pos d) ≡ pos ((2000 / b) * d) =
      mul_duration-pos (2000 / b) d (omega arith) (omega arith) in
    record {
      batch = b;
      sleep = d;
      interval = i;
      batch_is = b_is;
      sleep_is = d_is;
      interval_is = i_is;
      batch_taken = ground arith;
      batch_pos = b_ge;
      batch_small = b_le;
      sleep_small = d_le;
      interval_large = i_ge;
      sleeps_fit = fits s i b d ((2000 / b) * d) i_is b_is d_is exact b_ge h6;
    }

check_scan-IsWithin :
    (stat_path : Bytes → PathInfo) (s : ScanConfig) → check_scan stat_path s ≡ [] → IsWithin s
unfolding check_scan
check_scan-IsWithin stat_path s h =
    let (h1, r1) =
      append-eq-nil (check (ltb_ℤ s.interval (pos second)) Problem.interval_small) _ h in
    let (h2, r2) = append-eq-nil (check (ltb_ℤ s.batch_size (pos 1)) Problem.batch_small) _ r1 in
    let (h3, r3) =
      append-eq-nil (check (ltb_ℤ (pos 10000) s.batch_size) Problem.batch_large) _ r2 in
    let (h4, r4) =
      append-eq-nil (check (ltb_ℤ s.batch_sleep (pos 0)) Problem.sleep_negative) _ r3 in
    let (h5, r5) =
      append-eq-nil (check (ltb_ℤ (pos second) s.batch_sleep) Problem.sleep_long) _ r4 in
    let (h6, r6) =
      append-eq-nil (check (ltb_ℤ s.fd_scan_every (pos 1)) Problem.fd_every_small) _ r5 in
    let (h7, r7) =
      append-eq-nil (check (ltb_ℤ s.smaps_scan_every (pos 1)) Problem.smaps_every_small) _ r6 in
    let (h8, r8) =
      append-eq-nil (check (ltb_ℤ s.group_retention (pos 0)) Problem.retention_negative) _ r7 in
    let (h9, h10) = append-eq-nil (check_path s.proc_path (stat_path s.proc_path)) _ r8 in
    within s (check-eq-nil _ _ h1) (check-eq-nil _ _ h2) (check-eq-nil _ _ h3) (check-eq-nil _ _ h4)
      (check-eq-nil _ _ h5) (check-eq-nil _ _ h10)

-- A configuration that Load accepts is within the bounds.
pub load-IsWithin :
    {R M : Type 0} (rx : Regexp R M) (fs : Files) (path : Bytes) (c : Config)
    → load rx fs path ≡ ok c
    → IsWithin c.scan
unfolding validate
load-IsWithin rx fs path c h =
    let accepted = load-IsAccepted rx fs path c h in
    check_scan-IsWithin accepted.stat_path c.scan
      (append-eq-nil (check_scan accepted.stat_path c.scan) _ accepted.valid).0
