-- ===== src/View.antt =====
-- packages/promotion-ui/src/types.ts: the view models that the dashboard keeps and the views read.
-- A union of string literals that the code fills by an unchecked cast is a `String` here; one that
-- the code computes (the kind of a gate, its verdict) is a data type. `| null` is `Option`.
mod Candidate
mod Catalog
mod Transport
pub use Candidate.*
pub use Catalog.*
pub use Transport.*
