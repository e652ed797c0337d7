-- ===== src/Screens/Evaluations.antt =====
-- packages/promotion-ui/src/views/evaluations.tsx: the list of runs and the detail of one.
use agent_promotion_control.Prelude.{String, true, false, Option, none, some, [], ◌∷◌, get_or}
use agent_promotion_control.Js.{Runtime, ◌^^◌}
use agent_promotion_control.View.{
  EvaluationRunViewModel, EvaluationMeasurementViewModel, DashboardViewModel,
}
use agent_promotion_control.Live.{truthy}
use agent_promotion_control.Format.{humanize, format_percent, format_utc, gate_tone}
use agent_promotion_control.Routes.{evaluation_route}
use agent_promotion_control.Copy.Body.{governed_copy_body}
use agent_promotion_control.Views.{
  run_tone, timing_cell, format_duration, measurement_cell, validity_cell,
}
use agent_promotion_control.Markup.{
  class_name, named, on_press, Node, text, el, styled, plain, line, styled_line, optional, each,
  unless_empty,
}
use agent_promotion_control.Components.{
  Rendering, hidden, button_type, screen_intro, status_mark, section_heading, empty_state,
  draft_link, progress_bar,
}
use agent_promotion_control.Decision.Page.Matrix.{verdict_name}
use agent_promotion_control.Decision.Page.Records.{artifact_grid}
use agent_promotion_control.Screens.Registry.{sheet_node, sheet_row, reference_or, number_or}

module _ {N : Type 0} (js : Runtime N) (rt : Rendering N) where
  -- `cost === null ? missing : "$" + cost.toFixed(4)`.
  abbrev cost_or : String → Option N → String
  cost_or missing none = missing
  cost_or missing (some cost) = "$" ^^ rt.fixed 4 cost

  abbrev normalized_or : Option N → String
  normalized_or none = "Not reported"
  normalized_or (some score) = format_percent js (rt.times score (js.of_nat 100))

module _ {N E : Type 0} (js : Runtime N) (rt : Rendering N) where
  unfoldable pub run_card : (String → E) → EvaluationRunViewModel N → Node E
  run_card navigate run = plain "article" (
      plain "div" (
        status_mark (run_tone run.state) true (humanize js run.state)
        ∷ line "strong" run.plan_name
        ∷ [])
      ∷ plain "div" (
          styled_line "span" "pcp-mobile-label" "Candidate" ∷ line "strong" run.candidate_name ∷ [])
      ∷ plain "div"
          (styled_line "span" "pcp-mobile-label" "Provider" ∷ line "span" run.provider ∷ [])
      ∷ styled "div" "pcp-run-progress" (
          line "span" (format_percent js run.progress_percentage)
          ∷ progress_bar js (run.candidate_name ^^ " evaluation progress") run.progress_percentage (
              el "i" (named "style.inlineSize" (format_percent js run.progress_percentage) ∷ []) [])
          ∷ line "small" (
              number_or js "Not reported" run.result_count
              ^^ " results · "
              ^^ number_or js "Not reported" run.sample_count
              ^^ " samples")
          ∷ [])
      ∷ plain "div" (
          styled_line "span" "pcp-mobile-label" "Timing"
          ∷ line "span" (timing_cell js rt.calendar run)
          ∷ [])
      ∷ draft_link (navigate (evaluation_route run.id)) (some ("Inspect " ^^ run.plan_name))
          "Inspect"
      ∷ [])

  unfoldable pub evaluations_view : (String → E) → DashboardViewModel N → Node E
  unfolding run_card governed_copy_body
  evaluations_view navigate dashboard = styled "div" "pcp-view" (
      screen_intro "EVALUATIONS / MEASUREMENTS" "Evaluation runs"
        governed_copy_body.screens.evaluations.line1 governed_copy_body.screens.evaluations.line2
        none
      ∷ unless_empty dashboard.evaluations
          (empty_state "No evaluation runs are present in this snapshot.")
          (styled "div" "pcp-run-list" (
            el "div" (class_name "pcp-run-list-head" ∷ hidden ∷ []) (
              line "span" "Run"
              ∷ line "span" "Candidate"
              ∷ line "span" "Provider"
              ∷ line "span" "Progress"
              ∷ line "span" "Timing"
              ∷ plain "span" []
              ∷ [])
            ∷ each dashboard.evaluations (run_card navigate)
            ∷ []))
      ∷ [])

  unfoldable pub missing_run : (String → E) → Node E
  missing_run navigate = styled "div" "pcp-view" (
      screen_intro "EVALUATION / NOT FOUND" "Evaluation unavailable"
        "This evaluation run is not present in the current control-plane snapshot."
        "Return to the run list and select an available evaluation for review." none
      ∷ draft_link (navigate "/evaluations") none "Return to evaluations"
      ∷ [])

  abbrev plain_card : String → String → String → Node E
  plain_card label value meaning =
      styled "article" "pcp-metric-card"
        (styled_line "p" "pcp-label" label ∷ line "strong" value ∷ line "p" meaning ∷ [])

  unfoldable pub run_metrics : EvaluationRunViewModel N → Node E
  run_metrics run = styled "div" "pcp-metric-grid pcp-metric-grid-three" (
      plain_card "CANDIDATE" run.candidate_name "The candidate bound to this immutable run."
      ∷ plain_card "MEASUREMENTS" (number_or js "Not reported" run.result_count)
          "Typed results available to the central gate engine."
      ∷ plain_card "SAMPLES" (number_or js "Not reported" run.sample_count)
          "Samples aggregated by each criterion's declared rule."
      ∷ [])

  unfoldable pub run_sheet : EvaluationRunViewModel N → Node E
  run_sheet run = styled "section" "pcp-section pcp-run-sheet" (
      sheet_node "Plan reference" (reference_or "Plan" (truthy (some run.plan_id)))
      ∷ sheet_row "Provider" run.provider
      ∷ sheet_row "Model" (get_or run.model "Not used")
      ∷ sheet_row "Progress" (format_percent js run.progress_percentage)
      ∷ sheet_row "Started" (format_utc js rt.calendar run.started_at)
      ∷ sheet_row "Finished" (format_utc js rt.calendar run.finished_at)
      ∷ sheet_row "Duration" (format_duration js run.duration_milliseconds)
      ∷ sheet_row "Provider latency" (format_duration js run.latency_milliseconds)
      ∷ sheet_row "Cost" (cost_or js rt "Not reported" run.cost_usd)
      ∷ sheet_row "Attempt" (js.to_text run.attempt_count ^^ " of " ^^ js.to_text run.max_attempts)
      ∷ sheet_row "Planned criteria" (js.to_text run.planned_result_count)
      ∷ sheet_row "Last heartbeat" (format_utc js rt.calendar run.heartbeat_at)
      ∷ sheet_node "Correlation" (reference_or "Correlation" (truthy run.correlation_id))
      ∷ [])

  unfoldable pub measurement_row : EvaluationMeasurementViewModel N → Node E
  measurement_row result = plain "tr" (
      el "th" (named "scope" "row" ∷ named "data-label" "Criterion" ∷ []) (
        line "strong" result.gate.name
        ∷ line "span" (humanize js result.gate.category ^^ " · " ^^ result.gate.evaluator)
        ∷ [])
      ∷ el "td" (named "data-label" "Measurement" ∷ []) (
          line "strong" (measurement_cell js result).0
          ∷ line "span" (measurement_cell js result).1
          ∷ [])
      ∷ el "td" (named "data-label" "Provider" ∷ []) (
          line "strong" (get_or result.provider "Not reported")
          ∷ line "span" (get_or result.model "No model")
          ∷ line "span" (
              format_duration js result.latency_milliseconds
              ^^ " · "
              ^^ cost_or js rt "Cost not reported" result.cost_usd)
          ∷ [])
      ∷ el "td" (named "data-label" "Normalized score" ∷ [])
          (text (normalized_or js rt result.gate.normalized_score) ∷ [])
      ∷ el "td" (named "data-label" "Verdict" ∷ []) (
          status_mark (gate_tone result.gate.verdict) true
            (humanize js (verdict_name result.gate.verdict))
          ∷ [])
      ∷ el "td" (named "data-label" "Coverage" ∷ []) (
          line "span" (js.to_text result.gate.samples ^^ " samples")
          ∷ line "span" (js.to_text result.gate.evidence_count ^^ " evidence items")
          ∷ line "span" (validity_cell js result)
          ∷ [])
      ∷ [])

  unfoldable pub measurement_section : EvaluationRunViewModel N → Node E
  unfolding measurement_row
  measurement_section run = styled "section" "pcp-section" (
      section_heading "01" "Typed measurements"
        (some "The central gate engine assigns every threshold verdict.") none
      ∷ unless_empty run.results (empty_state "No typed measurements are available for this run.") (
          styled "div" "pcp-table-wrap" (
            styled "table" "pcp-table" (
              plain "thead" (
                plain "tr" (
                  line "th" "Criterion"
                  ∷ line "th" "Measurement"
                  ∷ line "th" "Provider"
                  ∷ line "th" "Normalized score"
                  ∷ line "th" "Verdict"
                  ∷ line "th" "Coverage"
                  ∷ [])
                ∷ [])
              ∷ plain "tbody" (each run.results measurement_row ∷ [])
              ∷ [])
            ∷ []))
      ∷ [])

  unfoldable pub run_evidence : EvaluationRunViewModel N → Node E
  run_evidence run = styled "section" "pcp-section" (
      section_heading "02" "Evidence and logs"
        (some "Persisted outputs keep provider responses inspectable.") none
      ∷ unless_empty run.artifacts
          (empty_state "No evidence artifact or log reference is linked to this run.")
          (artifact_grid js rt "Inspect output" run.artifacts)
      ∷ [])

  unfoldable pub run_error : String → Node E
  run_error message =
      styled "p" "pcp-inline-blocker"
        (el "span" (hidden ∷ []) (text "!" ∷ []) ∷ text (" " ^^ message) ∷ [])

  unfoldable pub evaluation_detail_view : (String → E) → Option (EvaluationRunViewModel N) → Node E
  unfolding missing_run run_metrics run_sheet run_error measurement_section run_evidence
  evaluation_detail_view navigate none = missing_run navigate
  evaluation_detail_view navigate (some run) = styled "div" "pcp-view" (
      styled "div" "pcp-breadcrumbs" (
        el "button" (button_type ∷ on_press (some (navigate "/evaluations")) ∷ [])
          (text "Evaluations" ∷ [])
        ∷ el "span" (hidden ∷ []) (text "/" ∷ [])
        ∷ line "span" run.plan_name
        ∷ [])
      ∷ screen_intro ("EVALUATION / " ^^ js.to_upper_case (humanize js run.state)) run.plan_name
          "This run records typed measurements from one immutable evaluation plan."
          "Review provider output and sample coverage before interpreting the central gate verdict."
          (some (status_mark (run_tone run.state) false (humanize js run.state)))
      ∷ run_metrics run
      ∷ run_sheet run
      ∷ optional (truthy run.error_message) run_error
      ∷ measurement_section run
      ∷ run_evidence run
      ∷ [])
