-- ===== src/Mutation.antt =====
-- The two ways in which the dashboard sends a governed mutation to the control plane: the server
-- action of the application and the HTTP data source of the package.
mod Action
mod Source
mod Subscription
pub mod Laws
pub mod Agreement
unfoldable pub use Action.*
unfoldable pub use Source.*
unfoldable pub use Subscription.*
