-- ===== src/Examples.antt =====
-- Concrete data: a runtime over the natural numbers, and runs of the modelled functions on it.
mod Machine
mod Live
mod Mutations
mod Loading
mod Paths
mod Decisions
mod Views
mod Detail
mod Shell
mod Screens
mod Web
mod Agreements
mod Orders
mod Themes
mod Finite
