-- ===== src/Api/Catalog.antt =====
-- apps/web/src/lib/api.ts: `mapEvaluation`, `mapPolicy`, `mapSchedule` and `mapRegistry`.
mod Evaluations
mod Policies
mod Schedules
unfoldable pub use Evaluations.*
unfoldable pub use Policies.*
unfoldable pub use Schedules.*
