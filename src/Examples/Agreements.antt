-- ===== src/Examples/Agreements.antt =====
-- A candidate that is loaded, and an event about it.
use mathlib.Core.List.{Perm}
use agent_promotion_control.Prelude.{ℕ, refl, String, true, [], ◌∷◌, ◌++◌}
use agent_promotion_control.Js.{str, num, bool, obj, arr, nil, cons, Fields, end, field, ◌!◌}
use agent_promotion_control.Js.Sorting.{IsOrderedBy}
use agent_promotion_control.View.{PromotionEventEnvelope, CandidateViewModel}
use agent_promotion_control.Live.{to_recent_event, update_candidate}
use agent_promotion_control.Api.{normalize_candidate, string}
use agent_promotion_control.Dashboard.{linked_to, load_candidate}
use agent_promotion_control.Dashboard.Timeline.{IsNotOlder, own_events, load_candidate-timeline}
use agent_promotion_control.Dashboard.Agreement.{
  IsReported, SameStanding, update_candidate-normalize_candidate,
}
use agent_promotion_control.Examples.Machine.{machine, machine-IsOrdered}
use agent_promotion_control.Examples.Live.{discovered}

abbrev eligibility : Fields ℕ
eligibility = field "eligible" (bool true) (
    field "lifecycle_approval_state" (str "SATISFIED") (
      field "registry_activation_state" (str "NOT_REQUESTED") (
        field "required_lifecycle_approvals" (num 1) (
          field "available_lifecycle_approvals" (num 1) (
            field "consumed_lifecycle_approvals" (num 0)
              (field "active_blocker_count" (num 0) end))))))

abbrev listed : Fields ℕ
listed = field "id" (str "e1") (field "sequence" (num 3) end)

abbrev body : Fields ℕ
body = field "id" (str "c1") (
    field "promotion_eligibility" (obj eligibility)
      (field "timeline" (arr (cons (obj listed) nil)) end))

abbrev linked : Fields ℕ
linked = field "id" (str "e2") (field "sequence" (num 5) (field "candidate_id" (str "c1") end))

abbrev uuids : ℕ → String
uuids i = "uuid"

abbrev loaded : CandidateViewModel ℕ
loaded = load_candidate machine uuids [] (linked ∷ []) body

load_candidate-timeline_example :
    IsOrderedBy (IsNotOlder machine) loaded.timeline
    × Perm loaded.timeline
        (own_events machine body ++ linked_to machine (string (body ! "id") "") (linked ∷ []))
load_candidate-timeline_example =
    load_candidate-timeline machine-IsOrdered uuids [] (linked ∷ []) body refl

abbrev reported : PromotionEventEnvelope ℕ
reported = record discovered {
  event_type = "ELIGIBILITY_DECIDED";
  payload = field "promotion_eligibility" (obj eligibility) end;
}

eligibility-IsReported : IsReported machine eligibility
eligibility-IsReported = record {
  eligible = true;
  state = "SATISFIED";
  activation = "NOT_REQUESTED";
  required = 1;
  available = 1;
  consumed = 0;
  blockers = 0;
  has_eligible = refl;
  has_state = refl;
  has_activation = refl;
  has_required = refl;
  has_available = refl;
  has_consumed = refl;
  has_blockers = refl;
  required_finite = refl;
  available_finite = refl;
  consumed_finite = refl;
  blockers_finite = refl;
}

update_candidate-normalize_candidate_example :
    SameStanding machine
      (update_candidate machine reported (to_recent_event machine reported) loaded)
      (normalize_candidate machine uuids (obj body) [])
update_candidate-normalize_candidate_example =
    update_candidate-normalize_candidate machine uuids body [] reported
      (to_recent_event machine reported) loaded eligibility refl refl eligibility-IsReported
