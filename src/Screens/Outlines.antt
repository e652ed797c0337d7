-- ===== src/Screens/Outlines.antt =====
-- packages/promotion-ui/src/views: the outlines of candidates.tsx, registry.tsx, contract.tsx, audit.tsx
-- and evaluations.tsx.
use mathlib.Core.List.{append-nil}
use agent_promotion_control.Prelude.{
  ◌≡◌, ◌∙◌, refl, ap, ℕ, String, Bool, Option, none, some, List, [], ◌∷◌, get_or,
}
use agent_promotion_control.Js.{Runtime}
use agent_promotion_control.View.{
  CandidateViewModel, RegistryAgentViewModel, PolicyViewModel, PolicyCriterionViewModel,
  TimelineEventViewModel, DashboardViewModel,
}
use agent_promotion_control.Routes.{candidate_route, registry_agent_route}
use agent_promotion_control.Views.{Filters, shown_candidates}
use agent_promotion_control.Markup.{nothing}
use agent_promotion_control.Markup.Outline.{Mark, main_heading, press, change, outline, IsQuiet}
use agent_promotion_control.Markup.Quiet.{
  unless_empty-IsQuiet, marks_of, outline-each_index, outline-unless_empty,
}
use agent_promotion_control.Components.{Rendering}
use agent_promotion_control.Components.Outlines.{
  component_outlines, empty_state-IsQuiet, technical_ref-IsQuiet,
}
use agent_promotion_control.Decision.Page.Outlines.{timeline_item-IsQuiet}
use agent_promotion_control.Decision.Page.Controls.{authority_notice-IsQuiet}
use agent_promotion_control.Screens.Inventory.{
  Setters, card_data, inline_blocker, candidate_card, candidates_view,
}
use agent_promotion_control.Screens.Registry.{
  version_mark, reference_or, registry_card, registry_view, version_sheet, monitoring_section,
  missing_version, registry_agent_detail_view,
}
use agent_promotion_control.Screens.Records.{
  criterion_row, criteria_table, policy_sheet, contract_view, audit_item, audit_view,
}

module _ {N E : Type 0} (js : Runtime N) (rt : Rendering N) where
  card_data-IsQuiet : (c : CandidateViewModel N) → IsQuiet {E = E} (card_data js rt c)
  unfolding card_data outline
  card_data-IsQuiet c = simp component_outlines

  inline_blocker-IsQuiet :
      (c : CandidateViewModel N) (summary : String)
      → IsQuiet {E = E} (inline_blocker js rt c summary)
  unfolding inline_blocker outline
  inline_blocker-IsQuiet c summary = refl

  outline-candidate_card :
      (navigate : String → E) (c : CandidateViewModel N) (i : ℕ)
      → outline (candidate_card js rt navigate c i) ≡ press (navigate (candidate_route c.id)) ∷ []
  unfolding candidate_card outline
  outline-candidate_card navigate c i = simp component_outlines

  -- The inventory: its four filters, and one link for each candidate that is shown.
  pub outline-candidates_view :
      (navigate : String → E) (set : Setters E) (filters : Filters)
      (dashboard : DashboardViewModel N)
      → outline (candidates_view js rt navigate set filters dashboard)
        ≡ main_heading
          ∷ change set.set_query
          ∷ change set.set_stage
          ∷ change set.set_source
          ∷ change set.set_disposition
          ∷ marks_of
              (λ c. press (navigate (candidate_route c.id)) ∷ [])
              (shown_candidates js filters dashboard.candidates)
  unfolding candidates_view outline
  outline-candidates_view navigate set filters dashboard =
      simp (append-nil, component_outlines)
        (ap
          (λ (cards : List (Mark E)).
            main_heading
            ∷ change set.set_query
            ∷ change set.set_stage
            ∷ change set.set_source
            ∷ change set.set_disposition
            ∷ cards)
          (outline-unless_empty (λ c. press (navigate (candidate_route c.id)) ∷ [])
            (shown_candidates js filters dashboard.candidates) _ _
            (empty_state-IsQuiet "No candidates match the current filters.")
            (append-nil _
              ∙ outline-each_index (λ c. press (navigate (candidate_route c.id)) ∷ [])
                  (shown_candidates js filters dashboard.candidates) (candidate_card js rt navigate)
                  (outline-candidate_card navigate))))

  pub version_mark-IsQuiet :
      (compact : Bool) (agent : RegistryAgentViewModel N)
      → IsQuiet {E = E} (version_mark js rt compact agent)
  unfolding version_mark
  version_mark-IsQuiet compact agent = simp component_outlines

  outline-registry_card :
      (navigate : String → E) (agent : RegistryAgentViewModel N) (i : ℕ)
      → outline (registry_card js rt navigate agent i)
        ≡ press (navigate (registry_agent_route (get_or agent.agent_id agent.id))) ∷ []
  unfolding registry_card outline
  outline-registry_card navigate agent i = simp component_outlines

  -- The registry: one link for each version.
  pub outline-registry_view :
      (navigate : String → E) (dashboard : DashboardViewModel N)
      → outline (registry_view js rt navigate dashboard)
        ≡ main_heading
          ∷ marks_of
              (λ agent.
                press (navigate (registry_agent_route (get_or agent.agent_id agent.id))) ∷ [])
              dashboard.registry_agents
  unfolding registry_view outline
  outline-registry_view navigate dashboard =
      simp (append-nil, component_outlines)
        (ap (◌∷◌ main_heading) (
          outline-unless_empty
            (λ agent. press (navigate (registry_agent_route (get_or agent.agent_id agent.id))) ∷ [])
            dashboard.registry_agents _ _
            (empty_state-IsQuiet "No immutable agent versions have been activated.")
            (append-nil _
              ∙ outline-each_index
                  (λ agent.
                    press (navigate (registry_agent_route (get_or agent.agent_id agent.id))) ∷ [])
                  dashboard.registry_agents (registry_card js rt navigate)
                  (outline-registry_card navigate))))

  pub reference_or-IsQuiet :
      (label : String) (o : Option String) → IsQuiet {E = E} (reference_or label o)
  unfolding reference_or outline
  reference_or-IsQuiet label none = refl
  reference_or-IsQuiet label (some value) = technical_ref-IsQuiet label value

  version_sheet-IsQuiet :
      (agent : RegistryAgentViewModel N) → IsQuiet {E = E} (version_sheet js rt agent)
  unfolding version_sheet outline
  version_sheet-IsQuiet agent = simp (component_outlines, reference_or-IsQuiet)

  monitoring_section-IsQuiet :
      (agent : RegistryAgentViewModel N) → IsQuiet {E = E} (monitoring_section js rt agent)
  unfolding monitoring_section outline
  monitoring_section-IsQuiet agent = simp (component_outlines, timeline_item-IsQuiet js rt)

  -- The detail of a version, with or without one: its way back.
  pub outline-registry_agent_detail_view :
      (navigate : String → E) (agent : RegistryAgentViewModel N)
      → outline (registry_agent_detail_view js rt navigate (some agent))
        ≡ press (navigate "/registry") ∷ main_heading ∷ []
  unfolding registry_agent_detail_view outline
  outline-registry_agent_detail_view navigate agent = simp (
    component_outlines,
    reference_or-IsQuiet,
    authority_notice-IsQuiet,
    unless_empty-IsQuiet agent.recent_monitoring_events nothing (monitoring_section js rt agent)
        refl (monitoring_section-IsQuiet agent),
  )

  pub outline-missing_version :
      (navigate : String → E)
      → outline (registry_agent_detail_view js rt navigate none)
        ≡ main_heading ∷ press (navigate "/registry") ∷ []
  unfolding registry_agent_detail_view missing_version outline
  outline-missing_version navigate = simp component_outlines

  criterion_row-IsQuiet :
      (criterion : PolicyCriterionViewModel N) → IsQuiet {E = E} (criterion_row js rt criterion)
  unfolding criterion_row outline
  criterion_row-IsQuiet criterion = simp component_outlines

  criteria_table-IsQuiet :
      (policy : PolicyViewModel N) → IsQuiet {E = E} (criteria_table js rt policy)
  unfolding criteria_table outline
  criteria_table-IsQuiet policy = simp (component_outlines, criterion_row-IsQuiet)

  policy_sheet-IsQuiet :
      (policy : PolicyViewModel N) (i : ℕ) → IsQuiet {E = E} (policy_sheet js rt policy i)
  unfolding policy_sheet outline
  policy_sheet-IsQuiet policy i = simp (component_outlines, criteria_table-IsQuiet)

  -- The contract is read only.
  pub outline-contract_view :
      (dashboard : DashboardViewModel N)
      → outline {E = E} (contract_view js rt dashboard) ≡ main_heading ∷ []
  unfolding contract_view outline
  outline-contract_view dashboard = simp (component_outlines, policy_sheet-IsQuiet)

  audit_item-IsQuiet : (event : TimelineEventViewModel N) → IsQuiet {E = E} (audit_item js rt event)
  unfolding audit_item outline
  audit_item-IsQuiet event = simp component_outlines

  pub outline-audit_view :
      (set_filter : String → E) (filter : String) (dashboard : DashboardViewModel N)
      → outline (audit_view js rt set_filter filter dashboard)
        ≡ main_heading ∷ change set_filter ∷ []
  unfolding audit_view outline
  outline-audit_view set_filter filter dashboard = simp (component_outlines, audit_item-IsQuiet)
