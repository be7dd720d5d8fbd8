-- ===== src/Scan.antt =====
-- internal/scan/scan.go: the scanner. `State` has its types, `Steps` the parts of readProcess, `Read`
-- the whole of it, `Loop` the walk over the processes, and the others what is proved of them.
pub mod State
pub mod Schedule
pub mod Stacking
pub mod Steps
pub mod Readings
pub mod Read
pub mod Loop
pub mod Rule
pub mod Accounting
pub mod Batches
pub mod Growth
pub mod Whole
pub mod SameProcess
pub mod Returned
pub mod Deltas
pub mod Denied
