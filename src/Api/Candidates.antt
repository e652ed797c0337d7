-- ===== src/Api/Candidates.antt =====
-- apps/web/src/lib/api.ts: `normalizeCandidate`.
mod Evidence
mod Normalize
unfoldable pub use Evidence.*
unfoldable pub use Normalize.*
