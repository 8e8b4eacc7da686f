-- ===== src/Sample.antt =====
-- internal/sample: what one tick of the agent produces.
pub mod Floats
pub mod Types
pub mod Counter
pub mod Laws
pub mod Rows
pub mod Irqs
pub mod Ranking
pub mod Vm
pub mod Discovered
pub mod Delta
pub mod Fixtures
mod Tests
