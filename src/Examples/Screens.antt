-- ===== src/Examples/Screens.antt =====
-- The views on a candidate that is ready and on a small dashboard.
use agent_promotion_control.Prelude.{
  ℕ, ◌*◌, ◌≡◌, ◌∙◌, ◌&&◌, refl, String, true, false, none, some, [], ◌∷◌,
}
use agent_promotion_control.Js.{obj, end, str, trim, trim_start, trim_end, is_space, utf16_length}
use agent_promotion_control.View.{CandidateViewModel, DashboardViewModel}
use agent_promotion_control.Fetch.{returns}
use agent_promotion_control.Api.{normalize_candidate}
use agent_promotion_control.Views.{queue}
use agent_promotion_control.Markup.Outline.{outline}
use agent_promotion_control.Markup.Marks.{offers, main_headings, resolves_in}
use agent_promotion_control.Components.{Rendering}
use agent_promotion_control.Decision.{decision_request}
use agent_promotion_control.Decision.Panel.{Transports}
use agent_promotion_control.Decision.Dialogs.{DetailState, deciding, fresh}
use agent_promotion_control.Decision.Page.{Surroundings, close_decision, confirm_decision}
use agent_promotion_control.Decision.Page.Whole.{candidate_detail_view, detail_view}
use agent_promotion_control.Decision.Page.Presses.{is_press, is_modal, perform}
use agent_promotion_control.Decision.Page.Offered.{offers-confirm_decision}
use agent_promotion_control.Decision.Page.Pressed.{
  OffersExactly, detail_view-offers, confirm_decision-perform,
}
use agent_promotion_control.Decision.Page.Labels.{candidate_detail_view-IsLabelled}
use agent_promotion_control.Screens.Inventory.{Setters}
use agent_promotion_control.Screens.Overview.{overview_view}
use agent_promotion_control.Screens.Labels.{has_any}
use agent_promotion_control.Screens.Headings.{overview_view-labels}
use agent_promotion_control.Examples.Machine.{machine, print}

abbrev page : Rendering ℕ
page = record { times = ◌*◌; smaller = λ a b. a; fixed = λ digits n. print n; calendar = print }

abbrev ready : CandidateViewModel ℕ
ready = record (normalize_candidate machine (λ i. "uuid") (obj end) []) {
  promotion_eligible = true;
  lifecycle_approval_state = "APPROVED";
  activation_state = "NOT_REQUESTED";
  blocker_code = none;
  blocker_summary = none;
}

abbrev standalone : Transports ℕ
standalone = record {
  on_decision = none;
  on_mutation = none;
  mutate = some (λ m. returns (str "queued"));
  embedded = false;
}

abbrev around : Surroundings
around = record { evidence_link = λ id. "/evidence"; attention_link = none; rationale_id = "r1" }

-- The dialog is open with a rationale that is too short, and with one that is long enough.
abbrev short : DetailState ℕ
short = record fresh { dialog_open = true; rationale = "It passed." }

abbrev written : DetailState ℕ
written = record fresh { dialog_open = true; rationale = "Every gate has passed twice." }

decision_is_disabled :
    offers
      (is_press confirm_decision)
      (outline (detail_view machine page standalone around ready short))
    ≡ false
unfolding trim trim_start trim_end is_space utf16_length
decision_is_disabled = offers-confirm_decision machine page standalone around ready short ∙ refl

decision_is_enabled :
    offers
      (is_press confirm_decision)
      (outline (detail_view machine page standalone around ready written))
    ≡ true
unfolding trim trim_start trim_end is_space utf16_length
decision_is_enabled = offers-confirm_decision machine page standalone around ready written ∙ refl

close_is_modal : is_modal close_decision ≡ true
unfolding is_modal
close_is_modal = refl

detail_view-offers_example : OffersExactly machine page standalone around ready short
detail_view-offers_example = detail_view-offers machine page standalone around ready short

confirm_decision-perform_example :
    ((perform standalone "k" ready confirm_decision written).awaited
      ≡ deciding (decision_request ready "Every gate has passed twice.") ∷ [])
    × ((perform standalone "k" ready confirm_decision written).submitting ≡ true)
    × (offers (is_press close_decision) (
          outline (
            detail_view machine page standalone around ready
              (perform standalone "k" ready confirm_decision written)))
        ≡ false)
confirm_decision-perform_example =
    confirm_decision-perform machine page standalone around "k" ready written close_decision
      decision_is_enabled close_is_modal

candidate_detail_view-IsLabelled_example :
    (main_headings
        (outline (candidate_detail_view machine page standalone around (some ready) written))
      ≡ 1)
    × (resolves_in
          (outline (candidate_detail_view machine page standalone around (some ready) written))
          (outline (candidate_detail_view machine page standalone around (some ready) written))
        ≡ true)
candidate_detail_view-IsLabelled_example =
    candidate_detail_view-IsLabelled machine page standalone around (some ready) written

abbrev dashboard : DashboardViewModel ℕ
dashboard = record {
  generated_at = "1";
  candidates = ready ∷ [];
  evaluations = [];
  policies = [];
  schedules = [];
  registry_agents = [];
  recent_events = [];
  live_connected = true;
  demo_mode = true;
}

abbrev setters : Setters String
setters = record {
  set_query = λ s. s;
  set_stage = λ s. s;
  set_source = λ s. s;
  set_disposition = λ s. s;
}

overview_view-labels_example :
    resolves_in
      (outline (overview_view machine page (λ a b. false) (λ path. path) dashboard))
      (outline (overview_view machine page (λ a b. false) (λ path. path) dashboard))
    ≡ (has_any (queue (λ a b. false) (ready ∷ [])) && false)
overview_view-labels_example =
    overview_view-labels machine page (λ a b. false) (λ path. path) dashboard
