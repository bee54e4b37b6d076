-- ===== src/Commands.antt =====
-- The programs: main.go, the manager that runs the controllers, and cmd/mock/main.go, the container
-- that the samples test.
mod Mock
mod Startup
pub mod Exits
pub mod Starts
unfoldable pub use Mock.*
unfoldable pub use Startup.*
