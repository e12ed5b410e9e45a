-- ===== src/Exporter.antt =====
-- internal/exporter/exporter.go: what the exporter tracks, which collectors it runs, and its life.
pub mod Discovery
pub mod Registration
pub mod Lifecycle
