-- ===== src/Scan/Stacking.antt =====
-- On which scans shouldScanFDs and shouldScanSmaps of internal/scan/scan.go agree, where both are
-- given the same interval.
use cpu_process_exporter.Base.{ℕ, ◌≤◌, ◌≡◌, ◌≢◌, true, false, ◌&&◌, ◌⊎◌, inl, inr, arith}
use cpu_process_exporter.Base.Int.{pos}
use cpu_process_exporter.Config.{ScanConfig}
use cpu_process_exporter.Scan.Schedule.{should_scan_fds, should_scan_smaps}

module _ (cfg : ScanConfig) (every : ℕ) (reads : cfg.read_smaps ≡ true)
    (fds : cfg.fd_scan_every ≡ pos every) (smaps : cfg.smaps_scan_every ≡ pos every) where
  -- With an interval of two or three scans for both, every scan that makes one of the expensive reads
  -- makes the other too: the halved interval is 1, the offset of the other schedule.
  pub stacked :
      (every ≡ 2) ⊎ (every ≡ 3) → (n : ℕ) → should_scan_fds cfg n ≡ should_scan_smaps cfg n
  unfolding should_scan_fds should_scan_smaps
  stacked (inl is) n = rw (reads, fds, smaps, is) (ground arith)
  stacked (inr is) n = rw (reads, fds, smaps, is) (ground arith)

  -- With an interval of at least four scans for both, no scan but the first makes both reads.
  pub apart :
      4 ≤ every → (n : ℕ) → n ≢ 1 → (should_scan_fds cfg n && should_scan_smaps cfg n) ≡ false
  unfolding should_scan_fds should_scan_smaps
  apart long n later = rw (reads, fds, smaps) (ground arith)
