-- ===== src/Dashboard.antt =====
-- apps/web/src/lib/api.ts: `loadDashboard`, which reads the collections of the control plane, and
-- one more body for the candidate, evaluation or registry agent that the page shows in detail.
mod Reads
mod Details
mod Assign
mod Rows
mod Load
pub mod Laws
pub mod Printable
pub mod Totality
pub mod Timeline
pub mod Agreement
unfoldable pub use Reads.*
unfoldable pub use Details.*
unfoldable pub use Assign.*
unfoldable pub use Rows.*
unfoldable pub use Load.*
