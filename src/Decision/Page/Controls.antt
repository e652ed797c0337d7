-- ===== src/Decision/Page/Controls.antt =====
-- packages/promotion-ui/src/views/candidate-detail.tsx: the outline of the whole view, which is what
-- its user can do in each of its states.
use mathlib.Core.List.{append-nil, append_assoc}
use agent_promotion_control.Prelude.{
  ◌≡◌, refl, Bool, ◌||◌, true, false, none, List, [], ◌∷◌, ◌++◌, ltb, if◌then◌else◌, Bool-cases,
  Option-cases, inl, inr,
}
use agent_promotion_control.Js.{Runtime, trim, utf16_length}
use agent_promotion_control.View.{CandidateViewModel, DecisionViewModel, LifecycleDecisionResult}
use agent_promotion_control.Live.{truthy}
use agent_promotion_control.Markup.{Node, optional, when}
use agent_promotion_control.Markup.Outline.{
  Mark, main_heading, declared, referred, link, press, change, outline, IsQuiet,
}
use agent_promotion_control.Components.{Rendering}
use agent_promotion_control.Components.Outlines.{component_outlines}
use agent_promotion_control.Decision.{has_blocker}
use agent_promotion_control.Decision.Panel.{
  Transports, PanelButton, promote, retry, unavailable, panel_button, evidence_artifacts,
}
use agent_promotion_control.Decision.Dialogs.{DetailState}
use agent_promotion_control.Decision.Page.{
  Press, go, open_decision, open_retry, close_decision, close_retry, confirm_decision,
  confirm_retry, write, Surroundings,
}
use agent_promotion_control.Decision.Page.Aside.{
  button_node, rationale_copy, authority_notice, action_result, recorded_decision, attention_anchor,
  decision_panel,
}
use agent_promotion_control.Decision.Page.Modals.{decision_dialog, retry_dialog}
use agent_promotion_control.Decision.Page.Whole.{detail_view}
use agent_promotion_control.Decision.Page.Outlines.{
  uri_marks, artifact_marks, outline-breadcrumbs, outline-introduction, origin-IsQuiet,
  metrics-IsQuiet, lifecycle_journey-IsQuiet, outline-blocker_part, matrix-IsQuiet,
  outline-persisted_evidence, signals-IsQuiet, history-IsQuiet,
}

-- A control that may be disabled.
abbrev pub unless_off : Bool → Press → List (Mark Press)
unless_off off e = if off then [] else press e ∷ []

abbrev pub button_marks : PanelButton → List (Mark Press)
button_marks promote = press open_decision ∷ []
button_marks (retry off label) = unless_off off open_retry
button_marks (unavailable label) = []

module _ {N : Type 0} where
  unfoldable pub attention_marks : Transports N → Surroundings → List (Mark Press)
  attention_marks ts around = if ts.embedded then uri_marks (truthy around.attention_link) else []

  unfoldable pub decision_marks : Surroundings → DetailState N → List (Mark Press)
  decision_marks around s =
      unless_off s.submitting close_decision
      ++ referred "promotion-dialog-title"
        ∷ declared "promotion-dialog-title"
        ∷ declared around.rationale_id
        ∷ change write
        ∷ unless_off s.submitting close_decision
      ++ unless_off (s.submitting || ltb (utf16_length (trim s.rationale)) 20) confirm_decision

  unfoldable pub retry_marks : DetailState N → List (Mark Press)
  retry_marks s =
      unless_off s.submitting close_retry
      ++ referred "retry-dialog-title"
        ∷ declared "retry-dialog-title"
        ∷ unless_off s.submitting close_retry
      ++ unless_off s.submitting confirm_retry

  unfoldable pub blocker_marks : CandidateViewModel N → List (Mark Press)
  blocker_marks c =
      if has_blocker c then referred "candidate-blocker" ∷ declared "candidate-blocker" ∷ [] else []

  abbrev pub detail_marks :
      Transports N → Surroundings → CandidateViewModel N → DetailState N → List (Mark Press)
  detail_marks ts around c s =
      press (go "/candidates") ∷ main_heading ∷ blocker_marks c
      ++ attention_marks ts around
      ++ button_marks (panel_button ts s.submitting c)
      ++ link (around.evidence_link c.id) ∷ artifact_marks (evidence_artifacts c.evidence)
      ++ (if s.dialog_open then decision_marks around s else [])
      ++ (if s.retry_dialog_open then retry_marks s else [])

outline-button_node : (b : PanelButton) → outline (button_node b) ≡ button_marks b
unfolding button_node outline
outline-button_node promote = refl
outline-button_node (retry true label) = refl
outline-button_node (retry false label) = refl
outline-button_node (unavailable label) = refl

rationale_copy-IsQuiet : IsQuiet rationale_copy
unfolding rationale_copy outline
rationale_copy-IsQuiet = refl

pub authority_notice-IsQuiet : {E : Type 0} → IsQuiet {E = E} authority_notice
unfolding authority_notice outline
authority_notice-IsQuiet = refl

action_result-IsQuiet :
    {N : Type 0} (result : LifecycleDecisionResult N) → IsQuiet (action_result result)
unfolding action_result outline
action_result-IsQuiet result = refl

ruleset panel_texts = (rationale_copy-IsQuiet, authority_notice-IsQuiet, action_result-IsQuiet)

module _ {N : Type 0} (js : Runtime N) (rt : Rendering N) where
  recorded_decision-IsQuiet : (d : DecisionViewModel) → IsQuiet (recorded_decision js rt d)
  unfolding recorded_decision outline
  recorded_decision-IsQuiet d = simp component_outlines

  outline-attention_anchor :
      (ts : Transports N) (around : Surroundings)
      → outline (
          optional
            (if ts.embedded then truthy around.attention_link else none)
            (attention_anchor js rt))
        ≡ attention_marks ts around
  unfolding outline attention_marks
  outline-attention_anchor ts around = elim (Bool-cases ts.embedded) [
    | inr h ↦ rw h refl
    | inl h ↦ rw h (elim (Option-cases (truthy around.attention_link)) [
      | inl missing ↦ rw missing refl
      | inr (anchor, given) ↦ rw given refl
    ])
  ]

  outline-decision_panel :
      (ts : Transports N) (around : Surroundings) (c : CandidateViewModel N) (s : DetailState N)
      → outline (decision_panel js rt ts around c s)
        ≡ attention_marks ts around ++ button_marks (panel_button ts s.submitting c)
  unfolding decision_panel outline
  outline-decision_panel ts around c s = simp (
    append-nil, component_outlines, panel_texts, recorded_decision-IsQuiet,
    outline-attention_anchor, outline-button_node,
  )

  outline-decision_dialog :
      (around : Surroundings) (c : CandidateViewModel N) (s : DetailState N)
      → outline (decision_dialog around c s) ≡ decision_marks around s
  unfolding decision_dialog outline decision_marks
  outline-decision_dialog around c s = elim (Bool-cases s.submitting) [
    | inl h ↦ rw h (simp (append-nil, component_outlines, panel_texts))
    | inr h ↦ rw h (simp (append-nil, component_outlines, panel_texts))
  ]

  outline-retry_dialog : (s : DetailState N) → outline (retry_dialog s) ≡ retry_marks s
  unfolding retry_dialog outline retry_marks
  outline-retry_dialog s = elim (Bool-cases s.submitting) [ inl h ↦ rw h refl | inr h ↦ rw h refl ]

  outline-when :
      (b : Bool) (n : Node Press) (marks : List (Mark Press))
      → outline n ≡ marks
      → outline (when b n) ≡ (if b then marks else [])
  unfolding outline
  outline-when true n marks h = h
  outline-when false n marks h = refl

  -- What the view shows of the candidate, and which of its controls are enabled, in each state.
  pub outline-detail_view :
      (ts : Transports N) (around : Surroundings) (c : CandidateViewModel N) (s : DetailState N)
      → outline (detail_view js rt ts around c s) ≡ detail_marks ts around c s
  unfolding detail_view outline blocker_marks
  outline-detail_view ts around c s = simp (
    append-nil,
    append_assoc,
    outline-breadcrumbs,
    outline-introduction,
    origin-IsQuiet,
    metrics-IsQuiet,
    lifecycle_journey-IsQuiet,
    outline-blocker_part,
    matrix-IsQuiet,
    outline-decision_panel,
    outline-persisted_evidence,
    signals-IsQuiet,
    history-IsQuiet,
    outline-when s.dialog_open (decision_dialog around c s) _ (outline-decision_dialog around c s),
    outline-when s.retry_dialog_open (retry_dialog s) _ (outline-retry_dialog s),
  )
