-- ===== src/Dashboard/Assign.antt =====
-- apps/web/src/lib/api.ts, in `loadDashboard`: the policies, and each candidate with its events and
-- the policy that it names.
use agent_promotion_control.Prelude.{
  ℕ, String, Bool, ◌&&◌, ◌||◌, not, none, some, Option, List, [], ◌∷◌, map, keep, find, list_or,
  ◌==◌, if◌then◌else◌,
}
use agent_promotion_control.Js.{obj, Fields, end, field, ◌!◌, ◌⁇◌, Runtime, spread}
use agent_promotion_control.View.{CandidateViewModel, TimelineEventViewModel, PolicyViewModel}
use agent_promotion_control.Api.{records, string, map_event, normalize_candidate, map_policy}
use agent_promotion_control.Dashboard.Reads.{has_key}
use agent_promotion_control.Dashboard.Details.{array_of}

abbrev pub has_text : String → Bool
has_text s = not (s == "")

-- `new Map(candidates.map((candidate) => [candidate.id, candidate.name]))`, the last entry first,
-- since it is the one that counts.
unfoldable pub names_onto :
    {N : Type 0} → List (String × String) → List (CandidateViewModel N) → List (String × String)
names_onto names [] = names
names_onto names (c ∷ cs) = names_onto ((c.id, c.name) ∷ names) cs

-- The texts by which a candidate names its policy.
pub record PolicyRequest : Type 0 where
  pub id : String
  pub hash : String
  pub key : String
  pub version : String

unfoldable pub policy_request : {N : Type 0} → Fields N → PolicyRequest
policy_request candidate = record {
  id = string (candidate ! "active_policy_id" ⁇ candidate ! "policy_id") "";
  hash = string (candidate ! "policy_hash") "";
  key = string (candidate ! "current_policy_key" ⁇ candidate ! "policy_key") "";
  version = string (candidate ! "current_policy_version") "";
}

unfoldable pub is_requested : {N : Type 0} → PolicyRequest → PolicyViewModel N → Bool
is_requested request policy =
    (has_text request.id && policy.id == request.id)
    || (has_text request.hash && policy.hash == request.hash)
    || (has_text request.key && policy.key == request.key && request.version == policy.version)

module _ {N : Type 0} (js : Runtime N) where
  -- The mapped events whose raw form names the candidate.
  unfoldable pub linked_to : String → List (Fields N) → List (TimelineEventViewModel N)
  linked_to id raw_events =
      if id == ""
      then []
      else map (λ event. map_event js (obj event)) (keep (has_key "candidate_id" id) raw_events)

  unfoldable pub load_policy : List (Fields N) → Fields N → PolicyViewModel N
  load_policy criteria policy =
      let matching = keep (has_key "policy_id" (string (policy ! "id") "")) criteria in
      map_policy js (
        obj (
          spread policy
            (field "criteria" (array_of (list_or matching (records (policy ! "criteria")))) end)))

  -- The approval that a policy without approvals does not ask for.
  unfoldable pub relaxed_approval : PolicyViewModel N → String → String
  relaxed_approval policy state =
      if state == "REQUIRED" && js.same policy.required_lifecycle_approvals (js.of_nat 0)
      then "NOT_REQUIRED"
      else state

  unfoldable pub assign_policy :
      Fields N → Option (PolicyViewModel N) → CandidateViewModel N → CandidateViewModel N
  unfolding relaxed_approval
  assign_policy candidate none mapped = mapped
  assign_policy candidate (some policy) mapped = record mapped {
    policy_name = string (candidate ! "policy_name") policy.name;
    policy_id = some policy.id;
    policy_key = some policy.key;
    policy_hash = string (candidate ! "policy_hash") policy.hash;
    lifecycle_approval_state = relaxed_approval policy mapped.lifecycle_approval_state;
  }

  unfoldable pub load_candidate :
      (ℕ → String) → List (PolicyViewModel N) → List (Fields N) → Fields N → CandidateViewModel N
  unfolding linked_to policy_request is_requested assign_policy
  load_candidate uuids policies raw_events candidate =
      assign_policy candidate (find (is_requested (policy_request candidate)) policies) (
        normalize_candidate js uuids (obj candidate)
          (linked_to (string (candidate ! "id") "") raw_events))
