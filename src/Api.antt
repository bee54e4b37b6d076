-- ===== src/Api.antt =====
-- The custom resources of api/v1alpha1, and the fields of the Kubernetes objects that the
-- controllers read or write.
mod Meta
mod Pods
mod Tests
mod Runs
mod Suites
pub use Meta.*
pub use Pods.*
unfoldable pub use Tests.*
unfoldable pub use Runs.*
unfoldable pub use Suites.*
