-- ===== src/Decision/Page/Outlines.antt =====
-- packages/promotion-ui/src/views/candidate-detail.tsx: the outline of the parts of the view that do
-- not depend on what its user has done.
use mathlib.Core.List.{append-nil}
use agent_promotion_control.Prelude.{
  ◌≡◌, ◌∙◌, refl, ap, ℕ, String, Option, none, some, List, [], ◌∷◌, Bool-cases, Option-cases, inl,
  inr, if◌then◌else◌,
}
use agent_promotion_control.Js.{Runtime}
use agent_promotion_control.View.{
  CandidateViewModel, BlockerViewModel, GateViewModel, EvidenceViewModel, TimelineEventViewModel,
}
use agent_promotion_control.Live.{truthy}
use agent_promotion_control.Markup.Outline.{
  Mark, main_heading, declared, referred, link, press, outline, IsQuiet,
}
use agent_promotion_control.Markup.Quiet.{marks_of, outline-each_index, outline-unless_empty}
use agent_promotion_control.Components.{Rendering, section_heading, empty_state}
use agent_promotion_control.Components.Outlines.{empty_state-IsQuiet, component_outlines}
use agent_promotion_control.Decision.{has_blocker}
use agent_promotion_control.Decision.Panel.{evidence_artifacts}
use agent_promotion_control.Decision.Page.{go, Surroundings}
use agent_promotion_control.Decision.Page.Opening.{
  breadcrumbs, intro_status, introduction, origin, metrics, lifecycle_journey, blocker_facts,
  blocker_section, blocker_part,
}
use agent_promotion_control.Decision.Page.Matrix.{gate_row, gate_table, readiness_breakdown, matrix}
use agent_promotion_control.Decision.Page.Records.{
  artifact_card, artifact_grid, signal_card, persisted_evidence, signals, timeline_item, history,
}

-- The link of an artifact, if it has one.
abbrev pub uri_marks : {E : Type 0} → Option String → List (Mark E)
uri_marks none = []
uri_marks (some uri) = link uri ∷ []

abbrev pub artifact_marks : {E : Type 0} → List EvidenceViewModel → List (Mark E)
artifact_marks artifacts = marks_of (λ e. uri_marks (truthy e.uri)) artifacts

module _ {N : Type 0} (js : Runtime N) (rt : Rendering N) where
  pub outline-breadcrumbs :
      (c : CandidateViewModel N) → outline (breadcrumbs js rt c) ≡ press (go "/candidates") ∷ []
  unfolding breadcrumbs outline
  outline-breadcrumbs c = refl

  intro_status-IsQuiet : (c : CandidateViewModel N) → IsQuiet (intro_status js rt c)
  unfolding intro_status outline
  intro_status-IsQuiet c = simp component_outlines

  pub outline-introduction :
      (c : CandidateViewModel N) → outline (introduction js rt c) ≡ main_heading ∷ []
  unfolding introduction outline
  outline-introduction c = simp component_outlines

  pub origin-IsQuiet : (c : CandidateViewModel N) → IsQuiet (origin js rt c)
  unfolding origin outline
  origin-IsQuiet c = refl

  pub metrics-IsQuiet : (c : CandidateViewModel N) → IsQuiet (metrics js rt c)
  unfolding metrics outline
  metrics-IsQuiet c = simp component_outlines

  pub lifecycle_journey-IsQuiet : (c : CandidateViewModel N) → IsQuiet (lifecycle_journey js rt c)
  unfolding lifecycle_journey outline
  lifecycle_journey-IsQuiet c = simp component_outlines

  blocker_facts-IsQuiet : (b : BlockerViewModel N) → IsQuiet (blocker_facts js rt b)
  unfolding blocker_facts outline
  blocker_facts-IsQuiet b = simp component_outlines

  outline-blocker_section :
      (c : CandidateViewModel N)
      → outline (blocker_section js rt c)
        ≡ referred "candidate-blocker" ∷ declared "candidate-blocker" ∷ []
  unfolding blocker_section outline
  outline-blocker_section c = simp (component_outlines, blocker_facts-IsQuiet)

  -- The blocker refers to its heading, which it declares.
  pub outline-blocker_part :
      (c : CandidateViewModel N)
      → outline (blocker_part js rt c) ≡ (
          if has_blocker c
          then referred "candidate-blocker" ∷ declared "candidate-blocker" ∷ []
          else [])
  unfolding blocker_part outline
  outline-blocker_part c = elim (Bool-cases (has_blocker c)) [
    | inl h ↦ rw h (outline-blocker_section c)
    | inr h ↦ rw h refl
  ]

  gate_row-IsQuiet : (gate : GateViewModel N) → IsQuiet (gate_row js rt gate)
  unfolding gate_row outline
  gate_row-IsQuiet gate = simp component_outlines

  gate_table-IsQuiet : (c : CandidateViewModel N) → IsQuiet (gate_table js rt c)
  unfolding gate_table outline
  gate_table-IsQuiet c = simp (component_outlines, gate_row-IsQuiet)

  readiness_breakdown-IsQuiet : (c : CandidateViewModel N) → IsQuiet (readiness_breakdown js rt c)
  unfolding readiness_breakdown outline
  readiness_breakdown-IsQuiet c = refl

  pub matrix-IsQuiet : (c : CandidateViewModel N) → IsQuiet (matrix js rt c)
  unfolding matrix outline
  matrix-IsQuiet c = simp (component_outlines, readiness_breakdown-IsQuiet)

  pub outline-artifact_card :
      {E : Type 0} (label : String) (evidence : EvidenceViewModel) (i : ℕ)
      → outline {E = E} (artifact_card js rt label evidence i) ≡ uri_marks (truthy evidence.uri)
  unfolding artifact_card outline
  outline-artifact_card label evidence i = elim (Option-cases (truthy evidence.uri)) [
    | inl h ↦ rw h (simp component_outlines)
    | inr (uri, h) ↦ rw h (simp component_outlines)
  ]

  pub outline-artifact_grid :
      {E : Type 0} (label : String) (artifacts : List EvidenceViewModel)
      → outline {E = E} (artifact_grid js rt label artifacts) ≡ artifact_marks artifacts
  unfolding outline
  outline-artifact_grid label artifacts =
      append-nil _
      ∙ outline-each_index (λ e. uri_marks (truthy e.uri)) artifacts (artifact_card js rt label)
          (outline-artifact_card label)

  signal_card-IsQuiet :
      (evidence : EvidenceViewModel) (i : ℕ) → IsQuiet (signal_card js rt evidence i)
  unfolding signal_card outline
  signal_card-IsQuiet evidence i = refl

  -- The link to the evidence, and the links of the artifacts.
  pub outline-persisted_evidence :
      (around : Surroundings) (c : CandidateViewModel N)
      → outline (persisted_evidence js rt around c)
        ≡ link (around.evidence_link c.id) ∷ artifact_marks (evidence_artifacts c.evidence)
  unfolding persisted_evidence outline section_heading
  outline-persisted_evidence around c =
      rw
        (outline-unless_empty (λ e. uri_marks (truthy e.uri)) (evidence_artifacts c.evidence)
          (empty_state "This candidate has no linked evidence artifacts.")
          (artifact_grid js rt "Inspect artifact" (evidence_artifacts c.evidence))
          (empty_state-IsQuiet "This candidate has no linked evidence artifacts.")
          (outline-artifact_grid "Inspect artifact" (evidence_artifacts c.evidence)))
        (ap (◌∷◌ (link (around.evidence_link c.id))) (append-nil _))

  pub signals-IsQuiet : (c : CandidateViewModel N) → IsQuiet (signals js rt c)
  unfolding signals outline
  signals-IsQuiet c = simp (component_outlines, signal_card-IsQuiet)

  pub timeline_item-IsQuiet :
      {E : Type 0} (event : TimelineEventViewModel N) → IsQuiet {E = E} (timeline_item js rt event)
  unfolding timeline_item outline
  timeline_item-IsQuiet event = refl

  pub history-IsQuiet : (c : CandidateViewModel N) → IsQuiet (history js rt c)
  unfolding history outline
  history-IsQuiet c = simp component_outlines
