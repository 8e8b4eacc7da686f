-- ===== src/Agent.antt =====
-- internal/agent: the part of mikroscope that runs on the router.
pub mod Ring
pub mod Captures
pub mod Server
pub mod Source
pub mod Sampler
