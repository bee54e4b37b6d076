-- ===== src/Logging.antt =====
-- logging/logging.go: the loggers of the controllers, and the names of the levels below Debug.
mod Loggers
mod Levels
pub mod Names
pub use Loggers.*
unfoldable pub use Levels.*
