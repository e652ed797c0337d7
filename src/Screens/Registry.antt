-- ===== src/Screens/Registry.antt =====
-- packages/promotion-ui/src/views/registry.tsx: the list of registry versions and the detail of one.
use agent_promotion_control.Prelude.{
  ℕ, String, Bool, true, false, Option, none, some, [], ◌∷◌, get_or, ◌==◌, if◌then◌else◌,
}
use agent_promotion_control.Js.{Runtime, ◌^^◌}
use agent_promotion_control.View.{RegistryAgentViewModel, DashboardViewModel}
use agent_promotion_control.Live.{truthy}
use agent_promotion_control.Format.{humanize, format_utc, position}
use agent_promotion_control.Routes.{registry_agent_route}
use agent_promotion_control.Copy.Body.{governed_copy_body}
use agent_promotion_control.Views.{version_tone, version_state}
use agent_promotion_control.Markup.{
  nothing, on_press, Node, text, el, styled, plain, line, styled_line, each, each_index,
  unless_empty,
}
use agent_promotion_control.Components.{
  Rendering, button_type, screen_intro, status_mark, section_heading, empty_state, draft_link,
  technical_ref,
}
use agent_promotion_control.Decision.Page.Records.{timeline_item}
use agent_promotion_control.Decision.Page.Aside.{authority_notice}

module _ {E : Type 0} where
  -- A label with what stands beside it.
  abbrev pub sheet_node : String → Node E → Node E
  sheet_node label value = plain "div" (line "span" label ∷ value ∷ [])

  abbrev pub sheet_row : String → String → Node E
  sheet_row label value = sheet_node label (line "strong" value)

  -- A technical reference, or that nothing was reported.
  unfoldable pub reference_or : String → Option String → Node E
  reference_or label none = line "strong" "Not reported"
  reference_or label (some value) = technical_ref label value

abbrev yes_or_no : Option Bool → String
yes_or_no none = "Not reported"
yes_or_no (some true) = "Yes"
yes_or_no (some false) = "No"

module _ {N : Type 0} (js : Runtime N) where
  -- `value ? humanize(value) : missing`.
  abbrev pub humanized_or : String → Option String → String
  humanized_or missing none = missing
  humanized_or missing (some value) = if value == "" then missing else humanize js value

  abbrev pub number_or : String → Option N → String
  number_or missing none = missing
  number_or missing (some n) = js.to_text n

module _ {N E : Type 0} (js : Runtime N) (rt : Rendering N) where
  unfoldable pub version_mark : Bool → RegistryAgentViewModel N → Node E
  version_mark compact agent = status_mark (version_tone js agent) compact (version_state js agent)

  unfoldable pub registry_card : (String → E) → RegistryAgentViewModel N → ℕ → Node E
  unfolding version_mark
  registry_card navigate agent i = plain "article" (
      styled_line "span" "pcp-card-index" (position js i)
      ∷ plain "div" (
          styled_line "p" "pcp-eyebrow" ("VERSION " ^^ js.to_text agent.version)
          ∷ line "h2" agent.name
          ∷ line "p" (
              "Published "
              ^^ format_utc js rt.calendar (some agent.promoted_at)
              ^^ " · Health: "
              ^^ humanized_or js "Not reported" agent.health)
          ∷ [])
      ∷ version_mark false agent
      ∷ technical_ref "Policy" agent.policy_hash
      ∷ draft_link (navigate (registry_agent_route (get_or agent.agent_id agent.id))) none
          "Inspect version"
      ∷ [])

  unfoldable pub registry_view : (String → E) → DashboardViewModel N → Node E
  unfolding registry_card governed_copy_body
  registry_view navigate dashboard = styled "div" "pcp-view" (
      screen_intro "REGISTRY / ACTIVATED VERSIONS" "Promoted agents"
        governed_copy_body.screens.registry.line1 governed_copy_body.screens.registry.line2 none
      ∷ unless_empty dashboard.registry_agents
          (empty_state "No immutable agent versions have been activated.")
          (styled "div" "pcp-registry-list"
            (each_index dashboard.registry_agents (registry_card navigate) ∷ []))
      ∷ [])

  unfoldable pub version_sheet : RegistryAgentViewModel N → Node E
  unfolding reference_or
  version_sheet agent = styled "section" "pcp-run-sheet" (
      sheet_row "Registry key" (get_or agent.registry_key "Not reported")
      ∷ sheet_row "External version" (get_or agent.external_version_id "Not reported")
      ∷ sheet_row "Activated" (format_utc js rt.calendar (some agent.promoted_at))
      ∷ sheet_row "Version" (js.to_text agent.version)
      ∷ sheet_node "Policy snapshot" (technical_ref "SHA-256" agent.policy_hash)
      ∷ sheet_node "Evaluation snapshot" (technical_ref "SHA-256" agent.evaluation_snapshot_hash)
      ∷ sheet_node "Stable publication token"
          (reference_or "Token" (truthy agent.publication_token))
      ∷ sheet_row "Candidate stage" (humanized_or js "Not reported" agent.candidate_stage)
      ∷ sheet_row "Candidate status" (humanized_or js "Not reported" agent.candidate_status)
      ∷ sheet_row "Current health" (humanized_or js "Registry does not report health" agent.health)
      ∷ sheet_row "Monitoring state" (humanized_or js "Not reported" agent.monitoring_state)
      ∷ sheet_row "Monitoring runs" (number_or js "Count not reported" agent.monitoring_run_count)
      ∷ sheet_row "Active registry version" (yes_or_no agent.is_active_version)
      ∷ [])

  unfoldable pub monitoring_section : RegistryAgentViewModel N → Node E
  monitoring_section agent = styled "section" "pcp-section" (
      section_heading "01" "Recent monitoring activity"
        (some "Durable events describe post-promotion observation.") none
      ∷ styled "ol" "pcp-event-list"
          (each agent.recent_monitoring_events (timeline_item js rt) ∷ [])
      ∷ [])

  unfoldable pub missing_version : (String → E) → Node E
  missing_version navigate = styled "div" "pcp-view" (
      screen_intro "REGISTRY / NOT FOUND" "Agent version unavailable"
        "This registry version is not present in the current control-plane snapshot."
        "Return to the registry and select an available immutable version." none
      ∷ draft_link (navigate "/registry") none "Return to registry"
      ∷ [])

  unfoldable pub registry_agent_detail_view :
      (String → E) → Option (RegistryAgentViewModel N) → Node E
  unfolding missing_version version_sheet monitoring_section version_mark
  registry_agent_detail_view navigate none = missing_version navigate
  registry_agent_detail_view navigate (some agent) = styled "div" "pcp-view" (
      styled "div" "pcp-breadcrumbs" (
        el "button" (button_type ∷ on_press (some (navigate "/registry")) ∷ [])
          (text "Registry" ∷ [])
        ∷ line "span" "/"
        ∷ line "span" agent.name
        ∷ [])
      ∷ screen_intro ("REGISTRY / VERSION " ^^ js.to_text agent.version) agent.name
          "This immutable version exists because registry publication completed successfully."
          "Verify its policy and publication token before downstream production selection."
          (some (version_mark false agent))
      ∷ version_sheet agent
      ∷ unless_empty agent.recent_monitoring_events nothing (monitoring_section agent)
      ∷ authority_notice
      ∷ [])
