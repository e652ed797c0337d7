-- ===== src/Views/Inventory.antt =====
-- packages/promotion-ui/src/views/candidates.tsx: the inventory with its search box and three
-- selections.
use agent_promotion_control.Prelude.{
  String, Bool, false, ◌&&◌, ◌||◌, Option, none, some, List, map, keep, ◌==◌, if◌then◌else◌,
}
use agent_promotion_control.Js.{Runtime, ◌^^◌, trim, includes, after_prefix, sort, text_after}
use agent_promotion_control.View.{CandidateViewModel}
use agent_promotion_control.Api.{distinct}
use agent_promotion_control.Format.{format_score}

-- What the user has typed and selected.
pub record Filters : Type 0 where
  pub query : String
  pub stage : String
  pub source : String
  pub disposition : String

abbrev pub initial_filters : Filters
initial_filters = record { query = ""; stage = "ALL"; source = "ALL"; disposition = "ALL" }

-- The values of the options that name a candidate type or a detector.
abbrev pub type_option : String → String
type_option value = "TYPE:" ^^ value

abbrev pub detector_option : String → String
detector_option value = "DETECTOR:" ^^ value

-- `start` and then this text.
abbrev pub names : Option String → String → Bool
names none value = false
names (some rest) value = value == rest

module _ {N : Type 0} where
  -- `nextAction`.
  unfoldable pub next_action : CandidateViewModel N → String
  next_action candidate =
      if candidate.status == "BLOCKED"
      then "Resolve the blocker, then rerun the active requirement."
      else if candidate.activation_state == "PENDING"
      then "Wait for the registry worker to complete publication."
      else if candidate.promotion_eligible && candidate.activation_state == "NOT_REQUESTED"
      then "Record the promotion lifecycle decision."
      else if candidate.stage == "EVALUATING"
      then "Complete the active evaluation plan."
      else if candidate.activation_state == "SUCCEEDED"
      then "Review monitoring evidence for the active version."
      else "Inspect evidence and continue the lifecycle."

  unfoldable pub matches_source : String → CandidateViewModel N → Bool
  matches_source source candidate =
      source == "ALL"
      || names (after_prefix "TYPE:" source) candidate.candidate_type
      || names (after_prefix "DETECTOR:" source) candidate.detector_lineage

  -- Ready for a decision: the third disposition.
  unfoldable pub is_ready : CandidateViewModel N → Bool
  is_ready candidate = candidate.promotion_eligible && candidate.activation_state == "NOT_REQUESTED"

  unfoldable pub matches_disposition : String → CandidateViewModel N → Bool
  unfolding is_ready
  matches_disposition disposition candidate =
      disposition == "ALL"
      || (disposition == "BLOCKED" && candidate.status == "BLOCKED")
      || (disposition == "PROMOTION_READY" && is_ready candidate)
      || (disposition == "PROMOTION_PENDING" && candidate.activation_state == "PENDING")

  unfoldable pub matches_stage : String → CandidateViewModel N → Bool
  matches_stage stage candidate = stage == "ALL" || candidate.stage == stage

  -- `[...new Set(values)].sort()`.
  unfoldable pub options :
      (CandidateViewModel N → String) → List (CandidateViewModel N) → List String
  options read candidates = sort text_after (distinct (map read candidates))

module _ {N : Type 0} (js : Runtime N) where
  unfoldable pub matches_query : String → CandidateViewModel N → Bool
  matches_query normalized candidate =
      normalized == ""
      || includes (js.to_lower_case candidate.name) normalized
      || includes (js.to_lower_case candidate.component) normalized
      || includes (js.to_lower_case candidate.candidate_type) normalized
      || includes (js.to_lower_case candidate.detector_lineage) normalized
      || includes (js.to_lower_case candidate.surfaced_reason) normalized

  unfoldable pub is_shown : Filters → CandidateViewModel N → Bool
  unfolding matches_query matches_stage matches_source matches_disposition
  is_shown filters candidate =
      matches_query (js.to_lower_case (trim filters.query)) candidate
      && matches_stage filters.stage candidate
      && matches_source filters.source candidate
      && matches_disposition filters.disposition candidate

  unfoldable pub shown_candidates :
      Filters → List (CandidateViewModel N) → List (CandidateViewModel N)
  unfolding is_shown
  shown_candidates filters = keep (is_shown filters)

  -- The two cells of a card that depend on missing values.
  unfoldable pub hard_gates_cell : Option N → Option N → String
  hard_gates_cell (some passed) (some required) =
      js.to_text passed ^^ " of " ^^ js.to_text required ^^ " passed"
  hard_gates_cell _ _ = "Awaiting gate summary"

  unfoldable pub weighted_cell : CandidateViewModel N → String
  weighted_cell candidate = format_score js candidate.evaluation.weighted_score
