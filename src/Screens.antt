-- ===== src/Screens.antt =====
-- packages/promotion-ui/src/views: the elements that each list view and the detail views of a run and
-- a registry version return. `navigate path` stands for the call of the router, `E` for the calls
-- that the controls of a view make.
pub mod Inventory
pub mod Registry
pub mod Records
pub mod Evaluations
pub mod Overview
pub mod Automation
pub mod Outlines
pub mod Front
pub mod Labels
pub mod Headings
