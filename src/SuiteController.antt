-- ===== src/SuiteController.antt =====
-- controllers/testsuite_controller.go: `TestSuiteReconciler` starts a TestRun when a TestSuite is
-- triggered by hand, by a Helm release or by its schedule, and follows it.
mod Defs
mod Prepare
mod Release
mod Schedule
mod Trigger
mod Running
pub mod Answers
pub mod Edges
mod Writes
mod Reconcile
pub mod Unschedule
mod Recorded
mod Starting
pub mod Flow
pub mod Progress
pub mod Metrics
pub mod Retention
pub mod Latest
pub mod OnTime
pub mod Labels
pub mod Ending
pub mod Repeats
pub mod Follows
pub mod Scheduled
pub mod Prepared
pub mod Exits
pub mod Outcomes
unfoldable pub use Defs.*
unfoldable pub use Prepare.*
unfoldable pub use Release.*
unfoldable pub use Schedule.*
unfoldable pub use Trigger.*
unfoldable pub use Running.*
unfoldable pub use Reconcile.*
