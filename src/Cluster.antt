-- ===== src/Cluster.antt =====
-- What the controllers act on: the API server behind controller-runtime's client, the event recorder
-- and the metrics. None of it is code of this repository. `Env` is the parameter that stands for it.
mod Defs
mod Monad
pub mod Keeps
pub mod Leads
pub use Defs.*
unfoldable pub use Monad.*
