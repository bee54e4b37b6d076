-- ===== src/HelmWatcher.antt =====
-- controllers/helmrelease_watcher.go and the reading of Helm releases in controllers/helpers.go: a
-- new Helm release enqueues the TestSuites that it triggers.
mod Release
mod Handle
pub mod Parsed
pub mod Permitted
pub mod Enqueued
pub mod Writes
unfoldable pub use Release.*
unfoldable pub use Handle.*
