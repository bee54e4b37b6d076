-- ===== src/Helpers.antt =====
-- controllers/errors.go and controllers/helpers.go.
mod Errors
mod Conditions
mod Objects
mod Hash
mod HashBounds
pub mod Keeps
pub mod Leads
pub mod Finalizers
pub mod CleanUp
unfoldable pub use Errors.*
unfoldable pub use Conditions.*
unfoldable pub use Objects.*
unfoldable pub use Hash.*
