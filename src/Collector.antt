-- ===== src/Collector.antt =====
-- The collector: internal/transport, which splits a reply, and internal/forward, which pulls.
pub mod Transport
pub mod Forward
