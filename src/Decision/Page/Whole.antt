-- ===== src/Decision/Page/Whole.antt =====
-- packages/promotion-ui/src/views/candidate-detail.tsx: the whole view.
use agent_promotion_control.Prelude.{Option, none, some, [], ◌∷◌}
use agent_promotion_control.Js.{Runtime}
use agent_promotion_control.View.{CandidateViewModel}
use agent_promotion_control.Markup.{Node, styled, when}
use agent_promotion_control.Components.{Rendering}
use agent_promotion_control.Decision.Panel.{Transports}
use agent_promotion_control.Decision.Dialogs.{DetailState}
use agent_promotion_control.Decision.Page.{Press, Surroundings}
use agent_promotion_control.Decision.Page.Opening.{
  unavailable_candidate, breadcrumbs, introduction, origin, metrics, lifecycle_journey,
  blocker_part,
}
use agent_promotion_control.Decision.Page.Matrix.{matrix}
use agent_promotion_control.Decision.Page.Records.{persisted_evidence, signals, history}
use agent_promotion_control.Decision.Page.Aside.{decision_panel}
use agent_promotion_control.Decision.Page.Modals.{decision_dialog, retry_dialog}

module _ {N : Type 0} (js : Runtime N) (rt : Rendering N) where
  unfoldable pub detail_view :
      Transports N → Surroundings → CandidateViewModel N → DetailState N → Node Press
  detail_view ts around c s = styled "div" "pcp-view" (
      breadcrumbs js rt c
      ∷ introduction js rt c
      ∷ origin js rt c
      ∷ metrics js rt c
      ∷ lifecycle_journey js rt c
      ∷ blocker_part js rt c
      ∷ styled "div" "pcp-detail-columns" (matrix js rt c ∷ decision_panel js rt ts around c s ∷ [])
      ∷ persisted_evidence js rt around c
      ∷ signals js rt c
      ∷ history js rt c
      ∷ when s.dialog_open (decision_dialog around c s)
      ∷ when s.retry_dialog_open (retry_dialog s)
      ∷ [])

  unfoldable pub candidate_detail_view :
      Transports N → Surroundings → Option (CandidateViewModel N) → DetailState N → Node Press
  unfolding unavailable_candidate detail_view
  candidate_detail_view ts around none s = unavailable_candidate
  candidate_detail_view ts around (some c) s = detail_view ts around c s
