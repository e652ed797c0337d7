-- ===== src/Api/Catalog/Policies.antt =====
-- apps/web/src/lib/api.ts: `mapPolicy`.
use agent_promotion_control.Prelude.{
  ℕ, String, List, [], ◌∷◌, map, map_index, list_or, ◌||◌, ◌==◌, if◌then◌else◌,
}
use agent_promotion_control.Js.{
  Value, str, Fields, ◌!◌, ◌⁇◌, is_false, array_or_empty, Runtime, ◌^^◌, non_empty,
}
use agent_promotion_control.View.{PolicyViewModel, PolicyCriterionViewModel, hard_gate, weighted}
use agent_promotion_control.Api.Decode.{
  to_record, records, string, number_or_zero, nullable_number, nullable_string, evaluator_label,
}

-- `filter((stage) => typeof stage === "string")`.
unfoldable pub strings_of : {N : Type 0} → List (Value N) → List String
strings_of [] = []
strings_of (str s ∷ vs) = s ∷ strings_of vs
strings_of (_ ∷ vs) = strings_of vs

-- The stages as plain names, or else the names of the stages.
unfoldable pub stages_of : {N : Type 0} → Value N → List String
stages_of stages =
    list_or (strings_of (array_or_empty stages))
      (non_empty (map (λ stage. string (stage ! "name") "") (records stages)))

module _ {N : Type 0} (js : Runtime N) where
  unfoldable pub map_criterion : Fields N → ℕ → PolicyCriterionViewModel N
  map_criterion entry index = record {
    id = string (entry ! "id") ("criterion-" ^^ js.to_text (js.of_nat index));
    version = string (entry ! "version") "unversioned";
    name = string (entry ! "name") "Unnamed criterion";
    description = nullable_string (entry ! "description");
    proof_meaning = nullable_string (entry ! "proof_meaning");
    content_hash = nullable_string (entry ! "content_hash" ⁇ entry ! "hash");
    category = string (entry ! "category") "GENERAL";
    kind =
        if string (entry ! "kind") "" == "WEIGHTED" || is_false (entry ! "hard_gate")
        then weighted
        else hard_gate;
    evaluator_type = nullable_string (entry ! "evaluator_type");
    evaluator =
        evaluator_label
          (entry ! "evaluator"
            ⁇ entry ! "evaluator_key"
            ⁇ entry ! "evaluator_type"
            ⁇ entry ! "evaluator_revision")
          (entry ! "evaluator_version") "Evaluator not reported";
    comparison_operator = string (entry ! "comparison_operator") "gte";
    measurement_unit =
        nullable_string (entry ! "measurement_unit" ⁇ entry ! "unit" ⁇ entry ! "measurement_type");
    threshold = number_or_zero js (entry ! "threshold");
    weight = nullable_number js (entry ! "weight");
    minimum_samples = number_or_zero js (entry ! "minimum_samples");
    evidence_requirements = non_empty (
        map (λ item. string item "")
          (array_or_empty (entry ! "evidence_requirements" ⁇ entry ! "required_evidence")));
    aggregation = string (entry ! "aggregation" ⁇ entry ! "aggregation_rule") "Not reported";
  }

  unfoldable pub map_policy : Value N → PolicyViewModel N
  map_policy value =
      let source = to_record value in
      record {
        id = string (source ! "id") (
            "policy-"
            ^^ string (source ! "key") "unknown"
            ^^ "-"
            ^^ string (source ! "version") "unversioned");
        key = string (source ! "key" ⁇ source ! "policy_key") "unknown-policy";
        name = string (source ! "name") "Promotion policy";
        version = string (source ! "version") "unversioned";
        hash = string (source ! "hash" ⁇ source ! "content_hash") "policy-hash-unavailable";
        minimum_weighted_score = number_or_zero js (source ! "minimum_weighted_score");
        lifecycle_stages = stages_of (source ! "lifecycle_stages");
        required_lifecycle_approvals = number_or_zero js (source ! "required_lifecycle_approvals");
        criteria = map_index map_criterion (records (source ! "criteria"));
      }
