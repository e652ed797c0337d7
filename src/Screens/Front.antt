-- ===== src/Screens/Front.antt =====
-- packages/promotion-ui/src/views: the outlines of evaluations.tsx, overview.tsx and automation.tsx.
use mathlib.Core.List.{append-nil}
use agent_promotion_control.Prelude.{◌≡◌, ◌∙◌, ap, String, Bool, none, some, List, [], ◌∷◌}
use agent_promotion_control.Js.{Runtime}
use agent_promotion_control.View.{
  CandidateViewModel, EvaluationRunViewModel, ScheduledJobViewModel, RegistryAgentViewModel,
  TimelineEventViewModel, DashboardViewModel, EvaluationMeasurementViewModel,
}
use agent_promotion_control.Live.{truthy}
use agent_promotion_control.Screens.Registry.{version_mark}
use agent_promotion_control.Routes.{candidate_route, evaluation_route}
use agent_promotion_control.Views.{queue}
use agent_promotion_control.Markup.{Node, unless_empty}
use agent_promotion_control.Markup.Outline.{
  Mark, main_heading, declared, referred, press, outline, IsQuiet,
}
use agent_promotion_control.Markup.Quiet.{marks_of, outline-each, outline-unless_empty}
use agent_promotion_control.Components.{Rendering, section_heading}
use agent_promotion_control.Components.Outlines.{component_outlines, empty_state-IsQuiet}
use agent_promotion_control.Decision.Page.Outlines.{
  uri_marks, artifact_marks, outline-artifact_grid, timeline_item-IsQuiet,
}
use agent_promotion_control.Screens.Evaluations.{
  run_card, evaluations_view, missing_run, measurement_row, measurement_section, run_sheet,
  run_evidence, evaluation_detail_view,
}
use agent_promotion_control.Screens.Overview.{
  overview_metrics, funnel_section, queue_row, queue_list, queue_section, event_line,
  events_section, recent_version, versions_section, schedule_owner, schedules_section,
}
use agent_promotion_control.Screens.Outlines.{reference_or-IsQuiet}

-- The marks of a list that declares its identifier only if it has something.
abbrev pub list_marks {ℓ} :
    {E : Type 0} {A : Type ℓ} → String → (A → List (Mark E)) → List A → List (Mark E)
list_marks id g [] = []
list_marks id g (x ∷ xs) = declared id ∷ marks_of g (x ∷ xs)

outline-list_marks {ℓ} :
    {E : Type 0} {A : Type ℓ} (id : String) (g : A → List (Mark E)) (xs : List A) (a b : Node E)
    → IsQuiet a
    → outline b ≡ declared id ∷ marks_of g xs
    → outline (unless_empty xs a b) ≡ list_marks id g xs
outline-list_marks id g [] a b h k = h
outline-list_marks id g (x ∷ xs) a b h k = k

module _ {N E : Type 0} (js : Runtime N) (rt : Rendering N) where
  outline-run_card :
      (navigate : String → E) (run : EvaluationRunViewModel N)
      → outline (run_card js rt navigate run) ≡ press (navigate (evaluation_route run.id)) ∷ []
  unfolding run_card outline
  outline-run_card navigate run = simp component_outlines

  -- The runs: one link for each.
  pub outline-evaluations_view :
      (navigate : String → E) (dashboard : DashboardViewModel N)
      → outline (evaluations_view js rt navigate dashboard)
        ≡ main_heading
          ∷ marks_of (λ run. press (navigate (evaluation_route run.id)) ∷ []) dashboard.evaluations
  unfolding evaluations_view outline
  outline-evaluations_view navigate dashboard =
      simp (append-nil, component_outlines)
        (ap (◌∷◌ main_heading) (
          outline-unless_empty (λ run. press (navigate (evaluation_route run.id)) ∷ [])
            dashboard.evaluations _ _
            (empty_state-IsQuiet "No evaluation runs are present in this snapshot.")
            (append-nil _
              ∙ outline-each (λ run. press (navigate (evaluation_route run.id)) ∷ [])
                  dashboard.evaluations (run_card js rt navigate) (outline-run_card navigate))))

  measurement_row-IsQuiet :
      (result : EvaluationMeasurementViewModel N) → IsQuiet {E = E} (measurement_row js rt result)
  unfolding measurement_row outline
  measurement_row-IsQuiet result = simp component_outlines

  measurement_section-IsQuiet :
      (run : EvaluationRunViewModel N) → IsQuiet {E = E} (measurement_section js rt run)
  unfolding measurement_section outline
  measurement_section-IsQuiet run = simp (component_outlines, measurement_row-IsQuiet)

  run_sheet-IsQuiet : (run : EvaluationRunViewModel N) → IsQuiet {E = E} (run_sheet js rt run)
  unfolding run_sheet outline
  run_sheet-IsQuiet run = simp (reference_or-IsQuiet js rt)

  outline-run_evidence :
      (run : EvaluationRunViewModel N)
      → outline {E = E} (run_evidence js rt run) ≡ artifact_marks run.artifacts
  unfolding run_evidence outline
  outline-run_evidence run =
      simp (append-nil, component_outlines)
        (outline-unless_empty (λ e. uri_marks (truthy e.uri)) run.artifacts _ _
          (empty_state-IsQuiet "No evidence artifact or log reference is linked to this run.")
          (outline-artifact_grid js rt "Inspect output" run.artifacts))

  -- The detail of a run: its way back, and the links of its artifacts.
  pub outline-evaluation_detail_view :
      (navigate : String → E) (run : EvaluationRunViewModel N)
      → outline (evaluation_detail_view js rt navigate (some run))
        ≡ press (navigate "/evaluations") ∷ main_heading ∷ artifact_marks run.artifacts
  unfolding evaluation_detail_view outline
  outline-evaluation_detail_view navigate run =
      simp (append-nil, component_outlines, reference_or-IsQuiet js rt)
        (ap (λ (links : List (Mark E)). press (navigate "/evaluations") ∷ main_heading ∷ links)
          (outline-unless_empty (λ e. uri_marks (truthy e.uri)) run.artifacts _ _
            (empty_state-IsQuiet "No evidence artifact or log reference is linked to this run.")
            (outline-artifact_grid js rt "Inspect output" run.artifacts)))

  pub outline-missing_run :
      (navigate : String → E)
      → outline (evaluation_detail_view js rt navigate none)
        ≡ main_heading ∷ press (navigate "/evaluations") ∷ []
  unfolding evaluation_detail_view missing_run outline
  outline-missing_run navigate = simp component_outlines

  pub overview_metrics-IsQuiet :
      (dashboard : DashboardViewModel N) → IsQuiet {E = E} (overview_metrics js rt dashboard)
  unfolding overview_metrics outline
  overview_metrics-IsQuiet dashboard = simp component_outlines

  pub outline-funnel_section :
      (dashboard : DashboardViewModel N)
      → outline {E = E} (funnel_section js rt dashboard)
        ≡ referred "lifecycle-funnel" ∷ declared "lifecycle-funnel" ∷ []
  unfolding funnel_section outline
  outline-funnel_section dashboard = simp component_outlines

  outline-queue_row :
      (navigate : String → E) (c : CandidateViewModel N)
      → outline (queue_row js rt navigate c) ≡ press (navigate (candidate_route c.id)) ∷ []
  unfolding queue_row outline
  outline-queue_row navigate c = simp component_outlines

  recent_version-IsQuiet :
      (agent : RegistryAgentViewModel N) → IsQuiet {E = E} (recent_version js rt agent)
  unfolding recent_version version_mark outline
  recent_version-IsQuiet agent = simp component_outlines

  schedule_owner-IsQuiet :
      (job : ScheduledJobViewModel N) → IsQuiet {E = E} (schedule_owner js rt job)
  unfolding schedule_owner outline
  schedule_owner-IsQuiet job = simp component_outlines

  event_line-IsDeclared :
      (dashboard : DashboardViewModel N)
      → outline {E = E} (event_line js rt dashboard) ≡ declared "recent-events" ∷ []
  unfolding event_line outline
  event_line-IsDeclared dashboard = simp (component_outlines, timeline_item-IsQuiet js rt)

  pub outline-versions_section :
      (navigate : String → E) (dashboard : DashboardViewModel N)
      → outline (versions_section js rt navigate dashboard) ≡ press (navigate "/registry") ∷ []
  unfolding versions_section outline section_heading
  outline-versions_section navigate dashboard = simp (component_outlines, recent_version-IsQuiet)

  pub outline-schedules_section :
      (navigate : String → E) (dashboard : DashboardViewModel N)
      → outline (schedules_section js rt navigate dashboard) ≡ press (navigate "/automation") ∷ []
  unfolding schedules_section outline section_heading
  outline-schedules_section navigate dashboard = simp (component_outlines, schedule_owner-IsQuiet)

  abbrev pub queue_marks : (String → E) → List (CandidateViewModel N) → List (Mark E)
  queue_marks navigate =
      list_marks "review-queue" (λ c. press (navigate (candidate_route c.id)) ∷ [])

  outline-queue_list :
      (navigate : String → E) (candidates : List (CandidateViewModel N))
      → outline (queue_list js rt navigate candidates)
        ≡ declared "review-queue"
          ∷ marks_of (λ c. press (navigate (candidate_route c.id)) ∷ []) candidates
  unfolding queue_list outline
  outline-queue_list navigate candidates = ap (◌∷◌ (declared "review-queue")) (
      append-nil _
      ∙ outline-each (λ c. press (navigate (candidate_route c.id)) ∷ []) candidates
          (queue_row js rt navigate) (outline-queue_row navigate))

  pub outline-queue_section :
      (locale_after : String → String → Bool) (navigate : String → E)
      (dashboard : DashboardViewModel N)
      → outline (queue_section js rt locale_after navigate dashboard)
        ≡ referred "review-queue"
          ∷ press (navigate "/candidates")
          ∷ queue_marks navigate (queue locale_after dashboard.candidates)
  unfolding queue_section outline section_heading
  outline-queue_section locale_after navigate dashboard =
      simp (append-nil, component_outlines)
        (ap
          (λ (rest : List (Mark E)).
            referred "review-queue" ∷ press (navigate "/candidates") ∷ rest)
          (outline-list_marks "review-queue" (λ c. press (navigate (candidate_route c.id)) ∷ [])
            (queue locale_after dashboard.candidates) _ _
            (empty_state-IsQuiet "No candidates are available for review.")
            (outline-queue_list navigate (queue locale_after dashboard.candidates))))

  abbrev pub event_marks : List (TimelineEventViewModel N) → List (Mark E)
  event_marks [] = []
  event_marks (event ∷ events) = declared "recent-events" ∷ []

  outline-shown_events :
      (events : List (TimelineEventViewModel N)) (a b : Node E)
      → IsQuiet a
      → outline b ≡ declared "recent-events" ∷ []
      → outline (unless_empty events a b) ≡ event_marks events
  outline-shown_events [] a b h k = h
  outline-shown_events (event ∷ events) a b h k = k

  pub outline-events_section :
      (navigate : String → E) (dashboard : DashboardViewModel N)
      → outline (events_section js rt navigate dashboard)
        ≡ referred "recent-events" ∷ press (navigate "/audit") ∷ event_marks dashboard.recent_events
  unfolding events_section outline section_heading
  outline-events_section navigate dashboard =
      simp (append-nil, component_outlines)
        (ap (λ (rest : List (Mark E)). referred "recent-events" ∷ press (navigate "/audit") ∷ rest)
          (outline-shown_events dashboard.recent_events _ _
            (empty_state-IsQuiet "No promotion events have been recorded.")
            (event_line-IsDeclared dashboard)))
