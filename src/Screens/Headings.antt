-- ===== src/Screens/Headings.antt =====
-- packages/promotion-ui/src/views: each view has one main heading, and where a section is labelled by
-- an element that the view may leave out.
use agent_promotion_control.Prelude.{
  suc, ◌≡◌, refl, ap, String, Bool, not, true, false, Option, none, some, List, [], ◌∷◌, ◌++◌, ◌&&◌,
  get_or,
}
use agent_promotion_control.Js.{Runtime}
use agent_promotion_control.View.{
  CandidateViewModel, EvaluationRunViewModel, RegistryAgentViewModel, TimelineEventViewModel,
  EvidenceViewModel, DashboardViewModel,
}
use agent_promotion_control.Routes.{candidate_route, evaluation_route, registry_agent_route}
use agent_promotion_control.Views.{Filters, can_run, cycle_candidate, queue, shown_candidates}
use agent_promotion_control.Markup.Outline.{Mark, main_heading, press, outline}
use agent_promotion_control.Markup.Marks.{
  main_headings, declares, resolves_in, declares-append, resolves_in-append, main_headings-append,
}
use agent_promotion_control.Markup.Quiet.{marks_of}
use agent_promotion_control.Components.{Rendering}
use agent_promotion_control.Decision.Panel.{Transports}
use agent_promotion_control.Screens.Inventory.{Setters, candidates_view}
use agent_promotion_control.Screens.Registry.{registry_view, registry_agent_detail_view}
use agent_promotion_control.Screens.Records.{contract_view, audit_view}
use agent_promotion_control.Screens.Evaluations.{evaluations_view, evaluation_detail_view}
use agent_promotion_control.Screens.Overview.{overview_view}
use agent_promotion_control.Screens.Automation.{automation_view}
use agent_promotion_control.Screens.Outlines.{
  outline-candidates_view, outline-registry_view, outline-registry_agent_detail_view,
  outline-missing_version, outline-contract_view, outline-audit_view,
}
use agent_promotion_control.Screens.Front.{
  outline-evaluations_view, outline-evaluation_detail_view, outline-missing_run,
}
use agent_promotion_control.Decision.Page.Outlines.{uri_marks, artifact_marks}
use agent_promotion_control.Markup.Sound.{IsSound, marks_of-IsSound}
use agent_promotion_control.Live.{truthy}
use agent_promotion_control.Screens.Labels.{
  has_any, overview_marks, outline-overview_view, outline-automation_view, button_mark, cycle_marks,
  presses-IsSound, declares-presses,
}

module _ {E : Type 0} where
  uri_marks-IsSound : (whole : List (Mark E)) (uri : Option String) → IsSound whole (uri_marks uri)
  unfolding main_headings resolves_in
  uri_marks-IsSound whole none = (refl, refl)
  uri_marks-IsSound whole (some uri) = (refl, refl)

artifacts_add_none :
    (E : Type 0) (artifacts : List EvidenceViewModel)
    → main_headings {E = E} (artifact_marks artifacts) ≡ 0
artifacts_add_none E artifacts =
    (marks_of-IsSound {E = E} [] (λ e. uri_marks (truthy e.uri)) artifacts
      (λ e. uri_marks-IsSound [] (truthy e.uri))).0

module _ {N E : Type 0} (js : Runtime N) (rt : Rendering N) where
  overview_marks-labels :
      (navigate : String → E) (candidates : List (CandidateViewModel N))
      (events : List (TimelineEventViewModel N))
      → let marks = overview_marks js rt navigate candidates events in
        (main_headings marks ≡ 1)
        × (resolves_in marks marks ≡ (has_any candidates && has_any events))
  unfolding main_headings resolves_in declares
  overview_marks-labels navigate [] [] = (refl, refl)
  overview_marks-labels navigate [] (e ∷ es) = (refl, refl)
  overview_marks-labels navigate (c ∷ cs) [] =
      let whole = overview_marks js rt navigate (c ∷ cs) [] in
      let (h, k) =
        presses-IsSound js rt whole (λ (x : CandidateViewModel N). navigate (candidate_route x.id))
          cs in
      (
        simp (main_headings-append, h),
        simp (resolves_in-append, declares-append, declares-presses js rt, k),
      )
  overview_marks-labels navigate (c ∷ cs) (e ∷ es) =
      let whole = overview_marks js rt navigate (c ∷ cs) (e ∷ es) in
      let (h, k) =
        presses-IsSound js rt whole (λ (x : CandidateViewModel N). navigate (candidate_route x.id))
          cs in
      (
        simp (main_headings-append, h),
        simp (resolves_in-append, declares-append, declares-presses js rt, k),
      )

  -- On the overview, everything that is labelled by another element names one that the view contains
  -- exactly if the review queue and the recent events both have something.
  pub overview_view-labels :
      (locale_after : String → String → Bool) (navigate : String → E)
      (dashboard : DashboardViewModel N)
      → let marks = outline (overview_view js rt locale_after navigate dashboard) in
        resolves_in marks marks
        ≡ (has_any (queue locale_after dashboard.candidates) && has_any dashboard.recent_events)
  overview_view-labels locale_after navigate dashboard =
      rw (outline-overview_view js rt locale_after navigate dashboard)
        (overview_marks-labels navigate (queue locale_after dashboard.candidates)
          dashboard.recent_events).1

  -- The links of a list below its heading.
  headed_list :
      {A : Type 0} (call : A → E) (xs : List A)
      → main_headings (main_heading ∷ marks_of (λ x. press (call x) ∷ []) xs) ≡ 1
  unfolding main_headings
  headed_list call xs = ap suc (presses-IsSound js rt [] call xs).0

  automation_heading :
      (run : E) (off : Bool) (c : Option (CandidateViewModel N))
      → main_headings (main_heading ∷ button_mark js rt run off ++ cycle_marks js rt c) ≡ 1
  unfolding main_headings
  automation_heading run true none = refl
  automation_heading run true (some c) = refl
  automation_heading run false none = refl
  automation_heading run false (some c) = refl

  -- Every list view has exactly one main heading, whatever the dashboard, the filters and the state of
  -- the demo cycle.
  list_views-HaveOneHeading :
      (locale_after : String → String → Bool) (navigate : String → E) (set : Setters E)
      (filters : Filters) (set_filter : String → E) (filter : String) (run : E) (ts : Transports N)
      (running : Bool) (message : String) (dashboard : DashboardViewModel N)
      → (main_headings (outline (overview_view js rt locale_after navigate dashboard)) ≡ 1)
        × (main_headings (outline (candidates_view js rt navigate set filters dashboard)) ≡ 1)
        × (main_headings (outline (evaluations_view js rt navigate dashboard)) ≡ 1)
        × (main_headings {E = E} (outline (contract_view js rt dashboard)) ≡ 1)
        × (main_headings (outline (automation_view js rt run ts running message dashboard)) ≡ 1)
        × (main_headings (outline (registry_view js rt navigate dashboard)) ≡ 1)
        × (main_headings (outline (audit_view js rt set_filter filter dashboard)) ≡ 1)
  unfolding main_headings
  list_views-HaveOneHeading locale_after navigate set filters set_filter filter run ts running
        message dashboard =
      (
        rw (outline-overview_view js rt locale_after navigate dashboard)
            (overview_marks-labels navigate (queue locale_after dashboard.candidates)
              dashboard.recent_events).0,
        rw (outline-candidates_view js rt navigate set filters dashboard) (
            headed_list (λ c. navigate (candidate_route c.id))
              (shown_candidates js filters dashboard.candidates)),
        rw (outline-evaluations_view js rt navigate dashboard)
            (headed_list (λ run. navigate (evaluation_route run.id)) dashboard.evaluations),
        rw (outline-contract_view {E = E} js rt dashboard) refl,
        rw (outline-automation_view js rt run ts running message dashboard) (
            automation_heading run
              (not (can_run dashboard.demo_mode running ts.embedded ts.on_mutation ts.mutate))
              (cycle_candidate dashboard.candidates)),
        rw (outline-registry_view js rt navigate dashboard) (
            headed_list (λ agent. navigate (registry_agent_route (get_or agent.agent_id agent.id)))
              dashboard.registry_agents),
        rw (outline-audit_view js rt set_filter filter dashboard) refl,
      )

  run_heading :
      (navigate : String → E) (run : Option (EvaluationRunViewModel N))
      → main_headings (outline (evaluation_detail_view js rt navigate run)) ≡ 1
  unfolding main_headings
  run_heading navigate none = rw (outline-missing_run js rt navigate) refl
  run_heading navigate (some run) =
      rw (outline-evaluation_detail_view js rt navigate run)
        (ap suc (artifacts_add_none E run.artifacts))

  version_heading :
      (navigate : String → E) (agent : Option (RegistryAgentViewModel N))
      → main_headings (outline (registry_agent_detail_view js rt navigate agent)) ≡ 1
  unfolding main_headings
  version_heading navigate none = rw (outline-missing_version js rt navigate) refl
  version_heading navigate (some agent) =
      rw (outline-registry_agent_detail_view js rt navigate agent) refl

  -- So has the detail of a run and the detail of a registry version, with or without a record to show.
  pub detail_views-HaveOneHeading :
      (navigate : String → E) (run : Option (EvaluationRunViewModel N))
      (agent : Option (RegistryAgentViewModel N))
      → (main_headings (outline (evaluation_detail_view js rt navigate run)) ≡ 1)
        × (main_headings (outline (registry_agent_detail_view js rt navigate agent)) ≡ 1)
  detail_views-HaveOneHeading navigate run agent =
      (run_heading navigate run, version_heading navigate agent)
