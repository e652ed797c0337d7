-- ===== src/Decision/Page.antt =====
-- packages/promotion-ui/src/views/candidate-detail.tsx: the elements that the view returns. `Opening`
-- has the introduction and the blocker, `Matrix` the gates, `Records` the evidence and the events,
-- `Aside` the decision panel, `Modals` the two dialogs.
pub mod Opening
pub mod Matrix
pub mod Records
pub mod Aside
pub mod Modals
pub mod Whole
pub mod Outlines
pub mod Controls
pub mod Labels
pub mod Presses
pub mod Offered
pub mod Pressed
use agent_promotion_control.Prelude.{String, Option}

-- What a control of the view calls: the router, or a setter or handler of the view.
pub data Press : Type 0 where
  go : (path : String) → Press
  open_decision open_retry close_decision close_retry confirm_decision confirm_retry : Press
  write : (rationale : String) → Press

-- The links that the view is given, and the identifier from `useId`.
pub record Surroundings : Type 0 where
  pub evidence_link : String → String
  pub attention_link : Option String
  pub rationale_id : String
