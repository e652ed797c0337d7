-- ===== src/Screens/Records.antt =====
-- packages/promotion-ui/src/views/contract.tsx and audit.tsx: the policies with their criteria, and
-- the timeline with its filter.
use agent_promotion_control.Prelude.{
  ℕ, String, true, Option, none, some, [], ◌∷◌, length, if◌then◌else◌,
}
use agent_promotion_control.Js.{Runtime, ◌^^◌}
use agent_promotion_control.View.{
  PolicyViewModel, PolicyCriterionViewModel, TimelineEventViewModel, DashboardViewModel, GateKind,
  hard_gate, weighted,
}
use agent_promotion_control.Live.{truthy}
use agent_promotion_control.Format.{
  VisualTone, decision, comparison, humanize, format_utc, position,
}
use agent_promotion_control.Copy.Body.{governed_copy_body}
use agent_promotion_control.Views.{proof_contract, audit_events}
use agent_promotion_control.Markup.{
  class_name, named, on_change, Node, text, el, styled, plain, line, styled_line, optional, each,
  each_index, unless_empty, fact, fact_of,
}
use agent_promotion_control.Components.{
  Rendering, screen_intro, status_mark, empty_state, technical_ref,
}
use agent_promotion_control.Decision.Page.Matrix.{kind_name}

unfoldable pub kind_tone : GateKind → VisualTone
kind_tone hard_gate = decision
kind_tone weighted = comparison

module _ {N : Type 0} (js : Runtime N) (rt : Rendering N) where
  abbrev criterion_weight : Option N → String
  criterion_weight none = "Not applicable"
  criterion_weight (some weight) = rt.fixed 2 weight

  -- `n === 0 ? "Not required" : …`.
  abbrev required : N → String → String
  required n shown = if js.same n (js.of_nat 0) then "Not required" else shown

module _ {N E : Type 0} (js : Runtime N) (rt : Rendering N) where
  unfoldable pub criterion_row : PolicyCriterionViewModel N → Node E
  unfolding kind_tone
  criterion_row criterion = plain "tr" (
      el "th" (named "scope" "row" ∷ named "data-label" "Criterion" ∷ []) (
        line "strong" criterion.name
        ∷ line "span" (humanize js criterion.category ^^ " · Version " ^^ criterion.version)
        ∷ optional (truthy criterion.description) (line "span")
        ∷ optional (truthy criterion.proof_meaning) (λ s. line "span" ("Proof: " ^^ s))
        ∷ optional (truthy criterion.content_hash) (technical_ref "Criterion SHA-256")
        ∷ [])
      ∷ el "td" (named "data-label" "Role" ∷ []) (
          status_mark (kind_tone criterion.kind) true (kind_name criterion.kind)
          ∷ line "span" ("Weight: " ^^ criterion_weight js rt criterion.weight)
          ∷ [])
      ∷ el "td" (named "data-label" "Proof contract" ∷ []) (
          line "strong" (proof_contract js criterion).0
          ∷ line "span" (proof_contract js criterion).1
          ∷ line "span" (proof_contract js criterion).2
          ∷ [])
      ∷ el "td" (named "data-label" "Evaluator" ∷ []) (
          line "strong" criterion.evaluator
          ∷ optional (truthy criterion.evaluator_type) (λ s. line "span" (humanize js s))
          ∷ line "span" (humanize js criterion.aggregation)
          ∷ [])
      ∷ [])

  unfoldable pub criteria_table : PolicyViewModel N → Node E
  unfolding criterion_row
  criteria_table policy = styled "div" "pcp-table-wrap" (
      styled "table" "pcp-table" (
        plain "thead" (
          plain "tr" (
            line "th" "Criterion"
            ∷ line "th" "Role"
            ∷ line "th" "Proof contract"
            ∷ line "th" "Evaluator"
            ∷ [])
          ∷ [])
        ∷ plain "tbody" (each policy.criteria criterion_row ∷ [])
        ∷ [])
      ∷ [])

  unfoldable pub policy_sheet : PolicyViewModel N → ℕ → Node E
  unfolding criteria_table
  policy_sheet policy i = styled "section" "pcp-policy-sheet" (
      plain "header" (
        styled_line "span" "pcp-card-index" (position js i)
        ∷ plain "div" (
            styled_line "p" "pcp-eyebrow" ("POLICY VERSION " ^^ policy.version)
            ∷ line "h2" policy.name
            ∷ technical_ref "SHA-256" policy.hash
            ∷ [])
        ∷ plain "dl" (
            fact "Required weighted score" (
              required js rt policy.minimum_weighted_score
                (js.to_text policy.minimum_weighted_score ^^ " of 100"))
            ∷ fact "Lifecycle approvals" (
                required js rt policy.required_lifecycle_approvals
                  (js.to_text policy.required_lifecycle_approvals))
            ∷ [])
        ∷ [])
      ∷ el "ol"
          (class_name "pcp-policy-stages"
            ∷ named "aria-label" (policy.name ^^ " lifecycle stages")
            ∷ [])
          (each_index policy.lifecycle_stages
              (λ stage j. plain "li" (line "span" (position js j) ∷ text (humanize js stage) ∷ []))
            ∷ [])
      ∷ unless_empty policy.criteria
          (empty_state "Nothing is required. All empty requirement sets evaluate as satisfied.")
          (criteria_table policy)
      ∷ [])

  unfoldable pub contract_view : DashboardViewModel N → Node E
  unfolding policy_sheet governed_copy_body
  contract_view dashboard = styled "div" "pcp-view" (
      screen_intro "CONTRACT / IMMUTABLE POLICY" "Criteria and policies"
        governed_copy_body.screens.contract.line1 governed_copy_body.screens.contract.line2 none
      ∷ unless_empty dashboard.policies
          (empty_state "No promotion policies are assigned in this snapshot.")
          (each_index dashboard.policies policy_sheet)
      ∷ [])

  unfoldable pub audit_item : TimelineEventViewModel N → Node E
  audit_item event = plain "li" (
      styled "div" "pcp-audit-sequence"
        (line "span" "SEQ" ∷ line "strong" (js.to_text event.sequence) ∷ [])
      ∷ styled "div" "pcp-audit-copy" (
          styled_line "p" "pcp-eyebrow" event.event_type
          ∷ line "h2" event.headline
          ∷ line "p" event.detail
          ∷ [])
      ∷ plain "dl" (
          fact "Recorded" (format_utc js rt.calendar (some event.occurred_at))
          ∷ fact "Actor" event.actor
          ∷ optional (truthy event.correlation_id)
              (λ s. fact_of "Correlation" (technical_ref "ID" s ∷ []))
          ∷ optional (truthy event.causation_id)
              (λ s. fact_of "Causation" (technical_ref "ID" s ∷ []))
          ∷ [])
      ∷ [])

  unfoldable pub audit_view : (String → E) → String → DashboardViewModel N → Node E
  unfolding audit_item governed_copy_body
  audit_view set_filter filter dashboard = styled "div" "pcp-view" (
      screen_intro "AUDIT / APPEND-ONLY EVENTS" "Control-plane timeline"
        governed_copy_body.screens.audit.line1 governed_copy_body.screens.audit.line2 none
      ∷ styled "div" "pcp-filter-bar" (
          plain "label" (
            line "span" "Filter durable events"
            ∷ el "input"
                (named "value" filter
                  ∷ on_change set_filter
                  ∷ named "placeholder" "Event, actor, or explanation"
                  ∷ [])
                []
            ∷ [])
          ∷ styled "div" "pcp-filter-count" (
              line "strong"
                (js.to_text (js.of_nat (length (audit_events js filter dashboard.recent_events))))
              ∷ line "span" "events shown"
              ∷ [])
          ∷ [])
      ∷ unless_empty (audit_events js filter dashboard.recent_events)
          (empty_state "No durable events match the current filter.")
          (styled "ol" "pcp-audit-line"
            (each (audit_events js filter dashboard.recent_events) audit_item ∷ []))
      ∷ [])
