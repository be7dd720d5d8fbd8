-- ===== src/Metrics.antt =====
-- internal/metrics/metrics.go: the metrics of a snapshot. `Descs` and `Collect` have the collector,
-- `Registry` the registry's own state, and the others what is proved of them.
pub mod Descs
pub mod Collect
pub mod Emitted
pub mod Announced
pub mod Series
pub mod Registry
pub mod Scrape
