-- ===== src/Views.antt =====
-- packages/promotion-ui/src/views: what each view computes from the dashboard before it is marked up.
mod Inventory
mod Overview
mod Automation
mod Records
pub mod Search
pub mod Queue
pub mod Cycle
unfoldable pub use Inventory.*
unfoldable pub use Overview.*
unfoldable pub use Automation.*
unfoldable pub use Records.*
