-- ===== src/Components.antt =====
-- packages/promotion-ui/src/components.tsx: the components that the views share, as the elements
-- they return. A tone that is not given is `neutral`.
pub mod Outlines
use agent_promotion_control.Prelude.{
  String, Bool, true, Option, none, some, List, [], ◌∷◌, get_or, ◌==◌, not, ℕ,
}
use agent_promotion_control.Js.{Runtime, ◌^^◌, slice_to, pad_two}
use agent_promotion_control.Format.{
  VisualTone, neutral, decision, comparison, degraded, stop, humanize, format_percent, format_utc,
}
use agent_promotion_control.Views.{technical_reference}
use agent_promotion_control.Markup.{
  Attribute, class_name, labelled_by, href, named, flag, on_press, Node, text, el, styled, plain,
  line, styled_line, when, optional, nothing,
}

-- What else the views take from the runtime: `a * b`, `Math.min`, `toFixed` with its digits, and the
-- formatter of `Intl.DateTimeFormat`.
pub record Rendering (N : Type 0) : Type 0 where
  pub times : N → N → N
  pub smaller : N → N → N
  pub fixed : ℕ → N → String
  pub calendar : N → String

unfoldable pub tone_name : VisualTone → String
tone_name neutral = "neutral"
tone_name decision = "decision"
tone_name comparison = "comparison"
tone_name degraded = "degraded"
tone_name stop = "stop"

module _ {E : Type 0} where
  abbrev pub hidden : Attribute E
  hidden = named "aria-hidden" "true"

  abbrev pub button_type : Attribute E
  button_type = named "type" "button"

  -- The two lines of the governed copy.
  abbrev pub cold_read : String → String → Node E
  cold_read line1 line2 =
      el "div" (class_name "pcp-cold-read" ∷ named "data-governed-copy" "true" ∷ [])
        (line "p" line1 ∷ line "p" line2 ∷ [])

  unfoldable pub screen_intro : String → String → String → String → Option (Node E) → Node E
  screen_intro eyebrow title line1 line2 aside = styled "header" "pcp-screen-intro" (
      plain "div"
        (styled_line "p" "pcp-eyebrow" eyebrow ∷ line "h1" title ∷ cold_read line1 line2 ∷ [])
      ∷ optional aside (λ child. styled "div" "pcp-intro-aside" (child ∷ []))
      ∷ [])

  unfoldable pub status_mark : VisualTone → Bool → String → Node E
  unfolding tone_name
  status_mark tone compact label =
      el "span"
        (class_name "pcp-status-mark"
          ∷ named "data-tone" (tone_name tone)
          ∷ flag "data-compact" compact
          ∷ [])
        (el "span" (class_name "pcp-status-shape" ∷ hidden ∷ []) [] ∷ line "span" label ∷ [])

  unfoldable pub section_heading : String → String → Option String → Option (Node E) → Node E
  section_heading index title detail action = styled "div" "pcp-section-heading" (
      styled "div" "pcp-section-title" (
        line "span" index
        ∷ plain "div" (
            line "h2" title
            ∷ when (not (get_or detail "" == "")) (line "p" (get_or detail ""))
            ∷ [])
        ∷ [])
      ∷ optional action (λ child. child)
      ∷ [])

  unfoldable pub empty_state : String → Node E
  empty_state message =
      styled "div" "pcp-empty" (el "span" (hidden ∷ []) (text "—" ∷ []) ∷ line "p" message ∷ [])

  abbrev label_attributes : Option String → List (Attribute E)
  label_attributes none = []
  label_attributes (some label) = named "aria-label" label ∷ []

  unfoldable pub draft_link : E → Option String → String → Node E
  draft_link press aria_label label =
      el "button"
        (class_name "pcp-draft-link"
          ∷ button_type
          ∷ on_press (some press)
          ∷ label_attributes aria_label)
        (line "span" label ∷ el "span" (hidden ∷ []) (text "→" ∷ []) ∷ [])

  unfoldable pub technical_ref : String → String → Node E
  unfolding technical_reference
  technical_ref label value =
      el "span" (class_name "pcp-technical-ref" ∷ named "title" value ∷ [])
        (text (technical_reference label value) ∷ [])

module _ {N E : Type 0} (js : Runtime N) where
  unfoldable pub gate_label : String → Node E
  gate_label value = styled_line "span" "pcp-gate-label" (humanize js value)

  -- The bar of a progress between 0 and 100.
  abbrev pub progress_bar : String → N → Node E → Node E
  progress_bar label progress bar =
      el "div"
        (class_name "pcp-progress"
          ∷ named "role" "progressbar"
          ∷ named "aria-label" label
          ∷ named "aria-valuemin" "0"
          ∷ named "aria-valuemax" "100"
          ∷ named "aria-valuenow" (js.to_text (js.round progress))
          ∷ [])
        (bar ∷ [])

  unfoldable pub metric_card :
      Rendering N → String → String → String → VisualTone → Option N → Node E
  unfolding tone_name
  metric_card rt label value meaning tone progress =
      el "article" (class_name "pcp-metric-card" ∷ named "data-tone" (tone_name tone) ∷ []) (
        styled_line "p" "pcp-label" label
        ∷ line "strong" value
        ∷ optional progress (λ share. progress_bar label share (
            el "span"
              (named "style.inlineSize"
                  (format_percent js (js.larger (js.of_nat 0) (rt.smaller (js.of_nat 100) share)))
                ∷ [])
              []))
        ∷ line "p" meaning
        ∷ [])

  -- An event in a list of events.
  abbrev pub event_item : String → String → String → String → Node E
  event_item sequence headline detail moment = plain "li" (
      styled_line "span" "pcp-event-sequence" sequence
      ∷ plain "div" (line "strong" headline ∷ line "p" detail ∷ line "span" moment ∷ [])
      ∷ [])
