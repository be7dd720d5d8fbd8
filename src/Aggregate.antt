-- ===== src/Aggregate.antt =====
-- internal/aggregate/aggregate.go: per-group series from per-process readings. `Types` has the records,
-- `Accums` and `Apply` the operations, and the others what is proved of them.
pub mod Types
pub mod Accums
pub mod Apply
pub mod Groups
pub mod Totals
pub mod Retention
pub mod Worst
pub mod Sums
pub mod Keys
pub mod Counters
