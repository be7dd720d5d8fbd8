-- ===== src/Procfs.antt =====
-- internal/procfs: the readers of the files under /proc, one module to a file of the source.
pub mod Error
pub mod World
pub mod Number
pub mod Stat
pub mod Statm
pub mod Status
pub mod Io
pub mod Smaps
pub mod Fd
pub mod Cmdline
pub mod Pids
pub mod System
pub mod Probe
pub mod Users
pub mod Comm
pub mod Digits
pub mod Descriptors
pub mod RoundTrip
