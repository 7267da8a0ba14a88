-- ===== src/Archive.antt =====
-- roles/collector/chart-archive: the archive of minute candles, its tasks and its rows.
pub mod Tasks
pub mod Rows
pub mod Manifests
pub mod Writer
