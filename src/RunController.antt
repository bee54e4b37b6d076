-- ===== src/RunController.antt =====
-- controllers/testrun_controller.go: `TestRunReconciler` creates a Test for each template of a
-- TestRun, and adds their results up.
mod Sweep
mod Mapping
mod Results
mod Reconcile
pub mod Names
pub mod Loops
mod Writes
pub mod Concluded
pub mod Answers
pub mod Flow
pub mod Progress
pub mod Stored
pub mod Current
pub mod Ending
pub mod Missing
pub mod Reports
pub mod Decided
pub mod Verdicts
pub mod Placed
unfoldable pub use Sweep.*
unfoldable pub use Mapping.*
unfoldable pub use Results.*
unfoldable pub use Reconcile.*
