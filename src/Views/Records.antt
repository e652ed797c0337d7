-- ===== src/Views/Records.antt =====
-- packages/promotion-ui/src/views: evaluations.tsx, contract.tsx, registry.tsx, audit.tsx, and the
-- cells of candidate-detail.tsx.
use Prim.Native.Char.{code}
use Prim.Native.String.{[], ◌∷◌}
use agent_promotion_control.Prelude.{
  ℕ, String, Bool, ◌&&◌, ◌||◌, true, false, Option, none, some, List, [], ◌∷◌, keep, get_or, leb,
  ltb, suc, map_index, nat_eq, ◌==◌, if◌then◌else◌,
}
use agent_promotion_control.Js.{
  Value, num, str, Fields, ◌!◌, Runtime, ◌^^◌, includes, trim, join, slice_to, utf16_length,
}
use agent_promotion_control.View.{
  EvaluationRunViewModel, EvaluationMeasurementViewModel, GateViewModel, TimelineEventViewModel,
  PolicyCriterionViewModel, RegistryAgentViewModel,
}
use agent_promotion_control.Format.{VisualTone, neutral, comparison, degraded, format_utc, humanize}

-- `runTone` of evaluations.tsx.
unfoldable pub run_tone : String → VisualTone
run_tone state =
    if state == "FAILED"
    then degraded
    else if state == "RUNNING" || state == "QUEUED"
    then comparison
    else neutral

-- `comparisonSymbols[operator] ?? operator` of evaluations.tsx and contract.tsx, for an operator that
-- is not the name of a property that every object inherits.
unfoldable pub symbol : String → String
symbol operator =
    if operator == "eq" || operator == "equals"
    then "="
    else if operator == "gt"
    then ">"
    else if operator == "gte"
    then "≥"
    else if operator == "lt"
    then "<"
    else if operator == "lte"
    then "≤"
    else operator

-- The same of candidate-detail.tsx, whose table has no `equals`.
unfoldable pub detail_symbol : String → String
detail_symbol operator =
    if operator == "eq"
    then "="
    else if operator == "gte"
    then "≥"
    else if operator == "gt"
    then ">"
    else if operator == "lte"
    then "≤"
    else if operator == "lt"
    then "<"
    else operator

-- A unit behind a space, if there is one.
abbrev pub unit_suffix : Option String → String
unit_suffix none = ""
unit_suffix (some u) = if u == "" then "" else " " ^^ u

-- `/^[a-f\d]{64}$/i.test(value)` of a text that is not empty.
unfoldable pub is_hex : String → Bool
is_hex [] = true
is_hex (c ∷ s) =
    ((leb b'a' (code c) && leb (code c) b'f')
      || (leb b'A' (code c) && leb (code c) b'F')
      || (leb b'0' (code c) && leb (code c) b'9'))
    && is_hex s

unfoldable pub is_sha256 : Option String → Bool
unfolding is_hex
is_sha256 none = false
is_sha256 (some s) = nat_eq (utf16_length s) 64 && is_hex s

-- `TechnicalReference`: a label and the first ten characters.
unfoldable pub technical_reference : String → String → String
technical_reference label value = label ^^ ": " ^^ slice_to 10 value

module _ {N : Type 0} (js : Runtime N) where
  -- `formatDuration`.
  unfoldable pub format_duration : Option N → String
  format_duration none = "Not observed"
  format_duration (some value) =
      if js.gt (js.of_nat 1000) value
      then js.to_text value ^^ " milliseconds"
      else js.to_fixed (js.over value (js.of_nat 1000)) ^^ " seconds"

  -- `formatMeasurement` of candidate-detail.tsx.
  abbrev contract_of : GateViewModel N → String → String
  contract_of gate unit = elim gate.threshold [
    | none ↦ ""
    | some threshold ↦
        " " ^^ detail_symbol gate.comparison_operator ^^ " " ^^ js.to_text threshold ^^ unit
  ]

  unfoldable pub format_measurement : GateViewModel N → String
  unfolding detail_symbol
  format_measurement gate = elim gate.measurement_value [
    | none ↦ "Pending"
    | some measured ↦
        let unit = unit_suffix gate.measurement_unit in
        js.to_text measured ^^ unit ^^ contract_of gate unit
  ]

  -- `detailValue`: the first key with a text or a number.
  abbrev shown_value : Value N → Option String → Option String
  shown_value (str s) rest = some s
  shown_value (num n) rest = some (js.to_text n)
  shown_value _ rest = rest

  unfoldable pub detail_value : Fields N → List String → Option String
  detail_value details [] = none
  detail_value details (key ∷ keys) = shown_value (details ! key) (detail_value details keys)

  -- The two lines of a measurement's cell in evaluations.tsx.
  abbrev text_or_missing : Option N → String → String
  text_or_missing none d = d
  text_or_missing (some n) d = js.to_text n

  unfoldable pub measurement_cell : EvaluationMeasurementViewModel N → String × String
  unfolding symbol
  measurement_cell result =
      let gate = result.gate in
      let unit = unit_suffix gate.measurement_unit in
      (
        text_or_missing gate.measurement_value "Pending" ^^ unit,
        symbol gate.comparison_operator
            ^^ " "
            ^^ text_or_missing gate.threshold "No threshold"
            ^^ unit,
      )

  unfoldable pub validity_cell : EvaluationMeasurementViewModel N → String
  validity_cell result =
      (elim result.valid [
        | none ↦ "Validity not reported"
        | some true ↦ "Valid result"
        | some false ↦ "Invalid result"
      ])
      ^^ (if get_or result.stale false then " · Stale" else "")

  -- The proof contract of a criterion in contract.tsx.
  abbrev criterion_unit : Option String → String
  criterion_unit none = " · unit not reported"
  criterion_unit (some u) = if u == "" then " · unit not reported" else " " ^^ u

  abbrev requirements_of : List String → String
  requirements_of [] = "No evidence artifact required"
  requirements_of (r ∷ rs) = join ", " (r ∷ rs)

  unfoldable pub proof_contract : PolicyCriterionViewModel N → String × String × String
  unfolding symbol
  proof_contract criterion = (
    symbol criterion.comparison_operator
        ^^ " "
        ^^ js.to_text criterion.threshold
        ^^ criterion_unit criterion.measurement_unit,
    (if js.same criterion.minimum_samples (js.of_nat 0)
        then "No samples required"
        else js.to_text criterion.minimum_samples ^^ " samples required"),
    requirements_of criterion.evidence_requirements,
  )

  unfoldable pub timing_cell : (N → String) → EvaluationRunViewModel N → String
  timing_cell calendar run =
      let started = get_or run.started_at "" in
      let finished = get_or run.finished_at "" in
      if finished == ""
      then (if started == ""
          then "Awaiting worker lease"
          else "Started " ^^ format_utc js calendar run.started_at)
      else "Finished " ^^ format_utc js calendar run.finished_at

  -- The tone and the label of a registry version.
  unfoldable pub version_tone : RegistryAgentViewModel N → VisualTone
  version_tone agent = if get_or agent.state "" == "SUSPENDED" then degraded else neutral

  unfoldable pub version_state : RegistryAgentViewModel N → String
  version_state agent =
      let state = get_or agent.state "" in
      if state == "" then "State not reported" else humanize js state

  -- The events of audit.tsx that match the filter.
  unfoldable pub matches_event : String → TimelineEventViewModel N → Bool
  matches_event query event =
      includes
        (js.to_lower_case
          (event.event_type ^^ " " ^^ event.headline ^^ " " ^^ event.detail ^^ " " ^^ event.actor))
        query

  unfoldable pub audit_events :
      String → List (TimelineEventViewModel N) → List (TimelineEventViewModel N)
  unfolding matches_event
  audit_events filter events =
      let query = js.to_lower_case (trim filter) in
      if query == "" then events else keep (matches_event query) events

-- The marks of the lifecycle journey: for each stage, whether it is the current one, and whether it
-- comes before the first place of the current one.
unfoldable pub index_of : String → List String → Option ℕ
index_of stage [] = none
index_of stage (s ∷ rest) =
    let later = index_of stage rest in
    if s == stage then some 0 else elim later [ none ↦ none | some i ↦ some (suc i) ]

unfoldable pub journey_marks : String → List String → List (String × Bool × Bool)
unfolding index_of
journey_marks stage journey =
    let current = index_of stage journey in
    map_index (λ s i. (s, s == stage, elim current [ none ↦ false | some n ↦ ltb i n ])) journey
