-- ===== src/Api.antt =====
-- apps/web/src/lib/api.ts: the bodies of the control-plane API, normalised into view models.
mod Decode
mod Events
mod Candidates
mod Catalog
pub mod Gates
unfoldable pub use Decode.*
unfoldable pub use Events.*
unfoldable pub use Candidates.*
unfoldable pub use Catalog.*
