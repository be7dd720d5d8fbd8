-- ===== src/Api.antt =====
-- internal/api/api.go: the HTTP surface. `Handlers` has the answers, `Routes` the table of patterns, and
-- the others what is proved of them.
pub mod Handlers
pub mod Order
pub mod Ready
pub mod Routes
pub mod Clash
