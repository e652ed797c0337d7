-- ===== src/Screens/Inventory.antt =====
-- packages/promotion-ui/src/views/candidates.tsx: the inventory with its filters.
use agent_promotion_control.Prelude.{
  ℕ, String, true, none, some, List, [], ◌∷◌, length, get_or, ◌==◌, if◌then◌else◌,
}
use agent_promotion_control.Js.{Runtime, ◌^^◌}
use agent_promotion_control.View.{CandidateViewModel, DashboardViewModel}
use agent_promotion_control.Live.{truthy}
use agent_promotion_control.Format.{humanize, format_utc, blocker_tone, activation_tone, position}
use agent_promotion_control.Routes.{candidate_route}
use agent_promotion_control.Copy.Body.{governed_copy_body}
use agent_promotion_control.Views.{
  Filters, options, type_option, detector_option, shown_candidates, next_action, hard_gates_cell,
  weighted_cell,
}
use agent_promotion_control.Markup.{
  class_name, named, on_change, Node, text, el, styled, plain, line, styled_line, optional, each,
  each_index, unless_empty, fact, fact_of,
}
use agent_promotion_control.Components.{
  Rendering, tone_name, hidden, screen_intro, status_mark, empty_state, draft_link,
}

-- The setters of the four hooks.
pub record Setters (E : Type 0) : Type 0 where
  pub set_query : String → E
  pub set_stage : String → E
  pub set_source : String → E
  pub set_disposition : String → E

module _ {E : Type 0} where
  abbrev option_node : String → String → Node E
  option_node value label = el "option" (named "value" value ∷ []) (text label ∷ [])

  -- An option for each value.
  unfoldable pub choices : (String → String) → (String → String) → List String → Node E
  choices value label values = each values (λ v. option_node (value v) (label v))

  abbrev selection : String → String → (String → E) → List (Node E) → Node E
  selection label value set choices =
      plain "label"
        (line "span" label ∷ el "select" (named "value" value ∷ on_change set ∷ []) choices ∷ [])

module _ {N E : Type 0} (js : Runtime N) (rt : Rendering N) where
  unfoldable pub search_box : Setters E → Filters → Node E
  search_box set filters = plain "label" (
      line "span" "Search candidates"
      ∷ el "input"
          (named "type" "search"
            ∷ named "value" filters.query
            ∷ on_change set.set_query
            ∷ named "placeholder" "Name, component, or reason"
            ∷ [])
          []
      ∷ [])

  unfoldable pub filter_bar : Setters E → Filters → List (CandidateViewModel N) → Node E
  unfolding search_box choices
  filter_bar set filters candidates =
      el "div" (class_name "pcp-filter-bar" ∷ named "role" "search" ∷ []) (
        search_box set filters
        ∷ selection "Lifecycle stage" filters.stage set.set_stage (
            option_node "ALL" "All stages"
            ∷ choices (λ v. v) (humanize js) (options (λ c. c.stage) candidates)
            ∷ [])
        ∷ selection "Candidate type or detector" filters.source set.set_source (
            option_node "ALL" "All sources"
            ∷ el "optgroup" (named "label" "Candidate types" ∷ []) (
                choices type_option (humanize js) (options (λ c. c.candidate_type) candidates) ∷ [])
            ∷ el "optgroup" (named "label" "Detectors" ∷ []) (
                choices detector_option (λ v. v) (options (λ c. c.detector_lineage) candidates)
                ∷ [])
            ∷ [])
        ∷ selection "Review state" filters.disposition set.set_disposition (
            option_node "ALL" "All review states"
            ∷ option_node "BLOCKED" "Blocked"
            ∷ option_node "PROMOTION_READY" "Promotion ready"
            ∷ option_node "PROMOTION_PENDING" "Registry pending"
            ∷ [])
        ∷ el "div" (class_name "pcp-filter-count" ∷ named "aria-live" "polite" ∷ []) (
            line "strong" (js.to_text (js.of_nat (length (shown_candidates js filters candidates))))
            ∷ line "span" ("of " ^^ js.to_text (js.of_nat (length candidates)) ^^ " shown")
            ∷ [])
        ∷ [])

  unfoldable pub card_data : CandidateViewModel N → Node E
  card_data c = styled "dl" "pcp-card-data" (
      fact "Lifecycle stage" (humanize js c.stage)
      ∷ fact "Hard gates" (hard_gates_cell js c.hard_gates_passed c.hard_gates_required)
      ∷ fact "Weighted score" (weighted_cell js c)
      ∷ fact "Latest evaluation" (
          if get_or c.latest_evaluation_at "" == ""
          then "No completed evaluation"
          else format_utc js rt.calendar c.latest_evaluation_at)
      ∷ fact_of "Registry activation" (
          status_mark (activation_tone c.activation_state) true (humanize js c.activation_state)
          ∷ [])
      ∷ [])

  unfoldable pub inline_blocker : CandidateViewModel N → String → Node E
  inline_blocker c summary =
      el "p"
        (class_name "pcp-inline-blocker" ∷ named "data-tone" (tone_name (blocker_tone js c)) ∷ [])
        (el "span" (hidden ∷ []) (text "!" ∷ []) ∷ text (" " ^^ summary) ∷ [])

  unfoldable pub candidate_card : (String → E) → CandidateViewModel N → ℕ → Node E
  unfolding card_data inline_blocker
  candidate_card navigate c i = styled "article" "pcp-candidate-card" (
      styled_line "div" "pcp-card-index" (position js i)
      ∷ styled "div" "pcp-card-head" (
          styled_line "span" "pcp-component-code"
            (humanize js c.candidate_type ^^ " · " ^^ c.discovery_source)
          ∷ status_mark (blocker_tone js c) true (humanize js c.status)
          ∷ [])
      ∷ line "h2" c.name
      ∷ line "p" c.surfaced_reason
      ∷ card_data c
      ∷ optional (truthy c.blocker_summary) (inline_blocker c)
      ∷ styled "p" "pcp-next-action"
          (line "strong" "Next action:" ∷ text (" " ^^ next_action c) ∷ [])
      ∷ draft_link (navigate (candidate_route c.id)) (some ("Inspect " ^^ c.name))
          "Inspect evidence"
      ∷ [])

  unfoldable pub candidates_view :
      (String → E) → Setters E → Filters → DashboardViewModel N → Node E
  unfolding filter_bar candidate_card governed_copy_body
  candidates_view navigate set filters dashboard = styled "div" "pcp-view" (
      screen_intro "CANDIDATES / GOVERNED QUEUE" "Candidate inventory"
        governed_copy_body.screens.candidates.line1 governed_copy_body.screens.candidates.line2 none
      ∷ filter_bar set filters dashboard.candidates
      ∷ unless_empty (shown_candidates js filters dashboard.candidates)
          (empty_state "No candidates match the current filters.")
          (styled "div" "pcp-candidate-grid" (
            each_index (shown_candidates js filters dashboard.candidates) (candidate_card navigate)
            ∷ []))
      ∷ [])
