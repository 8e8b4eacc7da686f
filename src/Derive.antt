-- ===== src/Derive.antt =====
-- internal/derive/derive.go: what the collector derives from the samples, and the faults it detects.
pub mod Types
pub mod Window
pub mod LeadUp
pub mod Boot
pub mod Fire
pub mod Rules
pub mod Bins
pub mod Kernel
pub mod Interfaces
pub mod Evolves
pub mod Spacing
mod Tests
