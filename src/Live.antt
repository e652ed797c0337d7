-- ===== src/Live.antt =====
-- packages/promotion-ui/src/live.ts: an event of the stream applied to the dashboard.
mod Decode
mod Discovery
mod Apply
pub mod Window
pub mod Feed
pub mod Orderly
pub mod Replay
pub mod Lookup
pub mod Arrival
pub mod Batches
unfoldable pub use Decode.*
unfoldable pub use Discovery.*
unfoldable pub use Apply.*
