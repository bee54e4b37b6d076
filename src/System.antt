-- ===== src/System.antt =====
-- The operator as a whole: the reconcilers that main.go registers and the watch on Helm's Secrets
-- write to the same cluster, one call of a handler after the other, in any order.
mod Calls
pub mod Sound
mod Free
pub mod Finished
pub mod FinishedRun
pub use Calls.*
