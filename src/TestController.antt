-- ===== src/TestController.antt =====
-- controllers/test_controller.go: `TestReconciler` turns a Test into a Pod and the Pod's end into the
-- Test's phase.
mod Pods
mod Status
mod Reconcile
pub mod Answers
pub mod Writes
pub mod Phases
pub mod Stored
pub mod Current
pub mod Deletion
pub mod Finished
pub mod Selection
pub mod Created
mod Usable
pub mod Creates
pub mod Counted
pub mod Outcomes
unfoldable pub use Pods.*
unfoldable pub use Status.*
unfoldable pub use Reconcile.*
