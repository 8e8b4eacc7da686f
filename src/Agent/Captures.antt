-- ===== src/Agent/Captures.antt =====
-- internal/agent/capture.go: triggered capture. The mutex makes every method atomic; a method
-- returns the new state. The nil `*Captures` of a disabled feature is `none`, where `new_captures`
-- makes it. Byte counts (int64) are not reduced: held bytes never pass the budget.
pub mod Types
pub mod Parse
pub mod Evaluate
pub mod Fire
pub mod Collect
pub mod Budget
pub mod Observe
pub mod Room
pub mod Quiet
pub mod Window
pub mod Untouched
pub mod Reachable
mod Tests
