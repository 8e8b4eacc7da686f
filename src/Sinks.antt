-- ===== src/Sinks.antt =====
-- internal/sinks: what hands the collector's events to a store.
pub mod Queue
