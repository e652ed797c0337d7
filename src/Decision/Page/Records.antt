-- ===== src/Decision/Page/Records.antt =====
-- packages/promotion-ui/src/views/candidate-detail.tsx: the persisted evidence, the detector signals
-- and the history of events.
use agent_promotion_control.Prelude.{ℕ, String, none, some, List, [], ◌∷◌, get_or}
use agent_promotion_control.Js.{Runtime, ◌^^◌}
use agent_promotion_control.View.{CandidateViewModel, EvidenceViewModel, TimelineEventViewModel}
use agent_promotion_control.Live.{truthy}
use agent_promotion_control.Format.{format_utc, position}
use agent_promotion_control.Views.{is_sha256}
use agent_promotion_control.Markup.{
  class_name, href, Node, text, el, styled, plain, line, styled_line, when, optional, each,
  each_index, unless_empty,
}
use agent_promotion_control.Components.{
  Rendering, hidden, section_heading, empty_state, technical_ref, event_item,
}
use agent_promotion_control.Decision.Panel.{evidence_artifacts, detector_signals}
use agent_promotion_control.Decision.Page.{Press, Surroundings}

module _ {N : Type 0} (js : Runtime N) (rt : Rendering N) where
  -- The lines that an artifact and a signal have in common.
  abbrev pub evidence_lines : {E : Type 0} → EvidenceViewModel → List (Node E) → Node E
  evidence_lines evidence rest = plain "div" (
      styled_line "p" "pcp-label" evidence.signal_type
      ∷ line "h3" evidence.title
      ∷ line "p" evidence.summary
      ∷ line "small"
          (evidence.source ^^ " · " ^^ format_utc js rt.calendar (some evidence.recorded_at))
      ∷ rest)

  abbrev pub artifact_link : {E : Type 0} → String → String → Node E
  artifact_link label uri = styled "div" "pcp-evidence-reference" (
      technical_ref "URI" uri
      ∷ el "a" (class_name "pcp-evidence-link" ∷ href uri ∷ []) (text label ∷ [])
      ∷ [])

  -- An artifact, with the label of its link.
  unfoldable pub artifact_card : {E : Type 0} → String → EvidenceViewModel → ℕ → Node E
  artifact_card label evidence i = plain "article" (
      line "span" (position js i)
      ∷ evidence_lines evidence (
          when (is_sha256 evidence.digest) (technical_ref "SHA-256" (get_or evidence.digest ""))
          ∷ optional (truthy evidence.uri) (artifact_link label)
          ∷ [])
      ∷ [])

  unfoldable pub signal_card : EvidenceViewModel → ℕ → Node Press
  signal_card evidence i =
      plain "article" (line "span" (position js i) ∷ evidence_lines evidence [] ∷ [])

  abbrev pub artifact_grid : {E : Type 0} → String → List EvidenceViewModel → Node E
  artifact_grid label artifacts =
      styled "div" "pcp-evidence-grid" (each_index artifacts (artifact_card label) ∷ [])

  unfoldable pub persisted_evidence : Surroundings → CandidateViewModel N → Node Press
  unfolding artifact_card evidence_artifacts
  persisted_evidence around c = styled "section" "pcp-section" (
      section_heading "04" "Persisted evidence"
        (some "Every artifact carries its source, recorded time, and immutable digest.")
        (some (
          el "a" (class_name "pcp-draft-link" ∷ href (around.evidence_link c.id) ∷ [])
            (line "span" "Open Evidence" ∷ el "span" (hidden ∷ []) (text "→" ∷ []) ∷ [])))
      ∷ unless_empty (evidence_artifacts c.evidence)
          (empty_state "This candidate has no linked evidence artifacts.")
          (artifact_grid "Inspect artifact" (evidence_artifacts c.evidence))
      ∷ [])

  unfoldable pub signals : CandidateViewModel N → Node Press
  unfolding signal_card detector_signals
  signals c = styled "section" "pcp-section" (
      section_heading "04B" "Detector signals"
        (some "Signals explain discovery. They are not promoted as evidence artifacts.") none
      ∷ unless_empty (detector_signals c.evidence)
          (empty_state "This candidate has no linked detector signals.")
          (styled "div" "pcp-evidence-grid"
            (each_index (detector_signals c.evidence) signal_card ∷ []))
      ∷ [])

  -- An event of a timeline, which the registry and the overview show too.
  unfoldable pub timeline_item : {E : Type 0} → TimelineEventViewModel N → Node E
  timeline_item event =
      event_item js ("#" ^^ js.to_text event.sequence) event.headline event.detail
        (format_utc js rt.calendar (some event.occurred_at) ^^ " · " ^^ event.actor)

  unfoldable pub history : CandidateViewModel N → Node Press
  unfolding timeline_item
  history c = styled "section" "pcp-section" (
      section_heading "05" "Candidate event history" (some "Newest durable event appears first.")
        none
      ∷ unless_empty c.timeline (empty_state "This candidate has no linked events.")
          (styled "ol" "pcp-event-list pcp-event-list-wide" (each c.timeline timeline_item ∷ []))
      ∷ [])
