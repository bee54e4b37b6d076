-- ===== src/Sweep.antt =====
-- The loop that both controllers of runs use to take deleted objects out of a slice.
mod Defs
mod Count
mod LiveBelow
mod Fill
pub mod Returns
pub mod Keeps
pub mod Live
unfoldable pub use Defs.*
