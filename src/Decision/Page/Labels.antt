-- ===== src/Decision/Page/Labels.antt =====
-- packages/promotion-ui/src/views/candidate-detail.tsx: the view has one main heading, and what is
-- labelled by another element names one that the view contains.
use agent_promotion_control.Prelude.{
  suc, ◌≡◌, refl, ap, String, Bool, true, false, List, [], ◌∷◌, ◌++◌, if◌then◌else◌, Bool-cases,
  inl, inr, Option, none, some, test_laws,
}
use agent_promotion_control.Js.{Runtime}
use agent_promotion_control.View.{CandidateViewModel, EvidenceViewModel}
use agent_promotion_control.Live.{truthy}
use agent_promotion_control.Markup.Outline.{Mark, link, outline}
use agent_promotion_control.Markup.Marks.{main_headings, declares, resolves_in, declares-append}
use agent_promotion_control.Markup.Sound.{IsSound, append-IsSound, shown-IsSound, marks_of-IsSound}
use agent_promotion_control.Components.{Rendering, screen_intro, draft_link}
use agent_promotion_control.Decision.{has_blocker}
use agent_promotion_control.Decision.Panel.{
  Transports, PanelButton, promote, retry, unavailable, panel_button, evidence_artifacts,
}
use agent_promotion_control.Decision.Dialogs.{DetailState}
use agent_promotion_control.Decision.Page.{Press, Surroundings}
use agent_promotion_control.Decision.Page.Presses.{is_short}
use agent_promotion_control.Decision.Page.Opening.{unavailable_candidate}
use agent_promotion_control.Decision.Page.Whole.{candidate_detail_view}
use agent_promotion_control.Decision.Page.Outlines.{uri_marks, artifact_marks}
use agent_promotion_control.Decision.Page.Controls.{
  unless_off, button_marks, attention_marks, decision_marks, retry_marks, blocker_marks,
  detail_marks, outline-detail_view,
}

unless_off-IsSound :
    (whole : List (Mark Press)) (off : Bool) (e : Press) → IsSound whole (unless_off off e)
unfolding main_headings resolves_in
unless_off-IsSound whole true e = (refl, refl)
unless_off-IsSound whole false e = (refl, refl)

uri_marks-IsSound :
    (whole : List (Mark Press)) (uri : Option String) → IsSound whole (uri_marks uri)
unfolding main_headings resolves_in
uri_marks-IsSound whole none = (refl, refl)
uri_marks-IsSound whole (some uri) = (refl, refl)

evidence-IsSound :
    (whole : List (Mark Press)) (path : String) (artifacts : List EvidenceViewModel)
    → IsSound whole (link path ∷ artifact_marks artifacts)
unfolding main_headings resolves_in
evidence-IsSound whole path artifacts =
    marks_of-IsSound whole (λ e. uri_marks (truthy e.uri)) artifacts
      (λ e. uri_marks-IsSound whole (truthy e.uri))

button_marks-IsSound :
    (whole : List (Mark Press)) (b : PanelButton) → IsSound whole (button_marks b)
unfolding main_headings resolves_in
button_marks-IsSound whole promote = (refl, refl)
button_marks-IsSound whole (retry true label) = (refl, refl)
button_marks-IsSound whole (retry false label) = (refl, refl)
button_marks-IsSound whole (unavailable label) = (refl, refl)

module _ {N : Type 0} where
  attention_marks-IsSound :
      (whole : List (Mark Press)) (ts : Transports N) (around : Surroundings)
      → IsSound whole (attention_marks ts around)
  unfolding attention_marks
  attention_marks-IsSound whole ts around =
      shown-IsSound whole ts.embedded (uri_marks (truthy around.attention_link))
        (λ h. uri_marks-IsSound whole (truthy around.attention_link))

  blocker_marks-IsSound :
      (whole : List (Mark Press)) (c : CandidateViewModel N)
      → (has_blocker c ≡ true → declares "candidate-blocker" whole ≡ true)
      → IsSound whole (blocker_marks c)
  unfolding blocker_marks main_headings resolves_in
  blocker_marks-IsSound whole c h =
      shown-IsSound whole (has_blocker c) _ (λ b. (refl, rw (h b) refl))

  decision_marks-IsSound :
      (whole : List (Mark Press)) (around : Surroundings) (s : DetailState N)
      → declares "promotion-dialog-title" whole ≡ true
      → IsSound whole (decision_marks around s)
  unfolding decision_marks main_headings resolves_in
  decision_marks-IsSound whole around s h = elim (Bool-cases s.submitting) [
    | inl b ↦ rw b (refl, rw h refl)
    | inr b ↦ rw b (elim (Bool-cases (is_short s)) [
      | inl k ↦ rw k (refl, rw h refl)
      | inr k ↦ rw k (refl, rw h refl)
    ])
  ]

  retry_marks-IsSound :
      (whole : List (Mark Press)) (s : DetailState N)
      → declares "retry-dialog-title" whole ≡ true
      → IsSound whole (retry_marks s)
  unfolding retry_marks main_headings resolves_in
  retry_marks-IsSound whole s h = elim (Bool-cases s.submitting) [
    | inl b ↦ rw b (refl, rw h refl)
    | inr b ↦ rw b (refl, rw h refl)
  ]

  -- The three elements that label another one are there whenever that one is.
  blocker-IsDeclared :
      (ts : Transports N) (around : Surroundings) (c : CandidateViewModel N) (s : DetailState N)
      → has_blocker c ≡ true
      → declares "candidate-blocker" (detail_marks ts around c s) ≡ true
  unfolding blocker_marks declares
  blocker-IsDeclared ts around c s h = rw h refl

  decision-IsDeclared :
      (ts : Transports N) (around : Surroundings) (c : CandidateViewModel N) (s : DetailState N)
      → s.dialog_open ≡ true
      → declares "promotion-dialog-title" (detail_marks ts around c s) ≡ true
  unfolding decision_marks declares
  decision-IsDeclared ts around c s h = rw h (simp (declares-append, test_laws))

  retry-IsDeclared :
      (ts : Transports N) (around : Surroundings) (c : CandidateViewModel N) (s : DetailState N)
      → s.retry_dialog_open ≡ true
      → declares "retry-dialog-title" (detail_marks ts around c s) ≡ true
  unfolding retry_marks declares
  retry-IsDeclared ts around c s h = rw h (simp (declares-append, test_laws))

  below_heading-IsSound :
      (ts : Transports N) (around : Surroundings) (c : CandidateViewModel N) (s : DetailState N)
      → IsSound (detail_marks ts around c s) (
          blocker_marks c
          ++ attention_marks ts around
          ++ button_marks (panel_button ts s.submitting c)
          ++ link (around.evidence_link c.id) ∷ artifact_marks (evidence_artifacts c.evidence)
          ++ (if s.dialog_open then decision_marks around s else [])
          ++ (if s.retry_dialog_open then retry_marks s else []))
  below_heading-IsSound ts around c s =
      let whole = detail_marks ts around c s in
      append-IsSound whole _ _
        (append-IsSound whole _ _
          (append-IsSound whole _ _
            (append-IsSound whole _ _
              (append-IsSound whole _ _
                (blocker_marks-IsSound whole c (blocker-IsDeclared ts around c s))
                (attention_marks-IsSound whole ts around))
              (button_marks-IsSound whole (panel_button ts s.submitting c)))
            (evidence-IsSound whole (around.evidence_link c.id) (evidence_artifacts c.evidence)))
          (shown-IsSound whole s.dialog_open (decision_marks around s)
            (λ h. decision_marks-IsSound whole around s (decision-IsDeclared ts around c s h))))
        (shown-IsSound whole s.retry_dialog_open (retry_marks s)
          (λ h. retry_marks-IsSound whole s (retry-IsDeclared ts around c s h)))

  detail_marks-IsLabelled :
      (ts : Transports N) (around : Surroundings) (c : CandidateViewModel N) (s : DetailState N)
      → (main_headings (detail_marks ts around c s) ≡ 1)
        × (resolves_in (detail_marks ts around c s) (detail_marks ts around c s) ≡ true)
  unfolding main_headings resolves_in
  detail_marks-IsLabelled ts around c s =
      let (h, k) = below_heading-IsSound ts around c s in (ap suc h, k)

module _ {N : Type 0} (js : Runtime N) (rt : Rendering N) where
  -- With or without a candidate and in every state, the view has exactly one main heading, and each
  -- section or dialog that names the element that labels it names one that the view contains.
  pub candidate_detail_view-IsLabelled :
      (ts : Transports N) (around : Surroundings) (c : Option (CandidateViewModel N))
      (s : DetailState N)
      → let marks = outline (candidate_detail_view js rt ts around c s) in
        (main_headings marks ≡ 1) × (resolves_in marks marks ≡ true)
  unfolding candidate_detail_view unavailable_candidate screen_intro draft_link outline
      main_headings resolves_in
  candidate_detail_view-IsLabelled ts around none s = (refl, refl)
  candidate_detail_view-IsLabelled ts around (some c) s =
      rw (outline-detail_view js rt ts around c s) (detail_marks-IsLabelled ts around c s)
