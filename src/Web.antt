-- ===== src/Web.antt =====
-- apps/web/src/app: the pages, the client's refresh of a page, and the route handlers.
mod Pages
mod Proxy
mod Refresh
pub mod Client
pub mod Visits
pub mod Segments
pub mod Forwarding
pub mod Bursts
pub mod Relay
pub mod Resumption
unfoldable pub use Pages.*
unfoldable pub use Proxy.*
unfoldable pub use Refresh.*
