-- ===== src/Scan/Schedule.antt =====
-- shouldScanFDs and shouldScanSmaps of internal/scan/scan.go: on which scans the two expensive reads
-- are made. `every` is an int; above 1 its conversion to uint64 is the number itself.
use cpu_process_exporter.Base.{ℕ, ◌/◌, ◌%◌, Bool, true, false, not, ◌||◌, ◌==◌, if◌then◌else◌}
use cpu_process_exporter.Base.Int.{pos, pos_part, leb_ℤ}
use cpu_process_exporter.Config.{ScanConfig}

unfoldable pub should_scan_fds : ScanConfig → ℕ → Bool
should_scan_fds cfg scan_no =
    if leb_ℤ cfg.fd_scan_every (pos 1)
    then true
    else scan_no % pos_part cfg.fd_scan_every == 1 || scan_no == 1

unfoldable pub should_scan_smaps : ScanConfig → ℕ → Bool
should_scan_smaps cfg scan_no =
    let every = pos_part cfg.smaps_scan_every in
    if not cfg.read_smaps
    then false
    else if leb_ℤ cfg.smaps_scan_every (pos 1)
    then true
    else if scan_no == 1
    then true
    else scan_no % every == every / 2
