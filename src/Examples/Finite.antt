-- ===== src/Examples/Finite.antt =====
-- A runtime with a NaN, and what the readers make of a text that is no number.
use Prim.Native.Char.{code}
use agent_promotion_control.Prelude.{
  ℕ, ◌≡◌, refl, String, Bool, true, false, ◌&&◌, leb, Option, none, some, [], ◌==◌, is_some,
  if◌then◌else◌, get_or,
}
use mathlib.Core.Option
use agent_promotion_control.Js.{Runtime, Value, str, num, arr, nil, cons, obj, end, field, ◌^^◌}
use agent_promotion_control.View.{DashboardViewModel, PromotionEventEnvelope}
use agent_promotion_control.Fetch.{Outcome, returns, throws, Request, Response}
use agent_promotion_control.Api.{
  items, records, evidence_prints, number, map_evaluation, to_record, computed_duration,
  nullable_string,
}
use agent_promotion_control.Views.{format_duration}
use agent_promotion_control.Live.{apply_promotion_event}
use agent_promotion_control.Dashboard.{Page, get_json, load_dashboard, try_dashboard}
use agent_promotion_control.Finite.{KeepsFinite, IsFiniteDashboard}
use agent_promotion_control.Finite.Streamed.{apply_promotion_event-IsFinite}
use agent_promotion_control.Finite.Loaded.{load_dashboard-IsFinite}
use agent_promotion_control.Examples.Machine.{machine}

-- `none` is NaN.
abbrev Number : Type 0
Number = Option ℕ

abbrev lift_two : (ℕ → ℕ → ℕ) → Number → Number → Number
lift_two f (some a) (some b) = some (f a b)
lift_two f _ _ = none

abbrev test_two : (ℕ → ℕ → Bool) → Number → Number → Bool
test_two f (some a) (some b) = f a b
test_two f _ _ = false

abbrev are_digits : String → Bool
are_digits String.[] = true
are_digits (String.◌∷◌ c s) = leb b'0' (code c) && leb (code c) b'9' && are_digits s

abbrev read : String → Number
read s = if are_digits s then some (machine.of_text s) else none

abbrev nan_machine : Runtime Number
nan_machine = record {
  is_finite = is_some;
  gt = test_two machine.gt;
  same = test_two machine.same;
  plus = lift_two machine.plus;
  minus = lift_two machine.minus;
  over = lift_two machine.over;
  round = λ a. a;
  larger = lift_two machine.larger;
  of_nat = some;
  of_text = read;
  to_text = λ a. get_or (Option.map machine.to_text a) "NaN";
  of_date = read;
  to_fixed = λ a. get_or (Option.map machine.to_fixed a) "NaN";
  to_lower_case = machine.to_lower_case;
  to_upper_case = machine.to_upper_case;
  stringify = λ value. "";
}

over_some :
    (a : Number) → is_some a ≡ true → is_some (nan_machine.over a (nan_machine.of_nat 100)) ≡ true
over_some none h = h
over_some (some n) h = refl

nan_machine-KeepsFinite : KeepsFinite Number nan_machine
nan_machine-KeepsFinite = record { of_nat_finite = λ n. refl; over_finite = over_some }

text_is_zero : number nan_machine (str "many") (some 0) ≡ some 0
unfolding number
text_is_zero = refl

-- One candidate, whose revision is a text that is no number.
abbrev candidate_rows : Value Number
candidate_rows = arr (cons (obj (field "id" (str "c1") (field "revision" (str "many") end))) nil)

abbrev answering : Request Number → Response Number
answering request =
    if request.url == "http://api/api/v1/dashboard"
    then record { ok = true; status = 200; json = some (obj end) }
    else if request.url == "http://api/api/v1/candidates"
    then record { ok = true; status = 200; json = some candidate_rows }
    else if request.url == "http://api/api/v1/schedules"
    then record { ok = true; status = 200; json = some (arr nil) }
    else if request.url == "http://api/api/v1/events?limit=80"
    then record { ok = true; status = 200; json = some (arr nil) }
    else record { ok = false; status = 404; json = none }

abbrev page : Page
page = record { candidate_id = none; evaluation_id = none; registry_agent_id = none }

abbrev uuids : ℕ → ℕ → String
uuids i j = "uuid"

abbrev empty : DashboardViewModel Number
empty = record {
  generated_at = "";
  candidates = [];
  evaluations = [];
  policies = [];
  schedules = [];
  registry_agents = [];
  recent_events = [];
  live_connected = true;
  demo_mode = false;
}

abbrev given : Outcome (DashboardViewModel Number) → DashboardViewModel Number
given (returns d) = d
given (throws message) = empty

abbrev loaded : DashboardViewModel Number
loaded = given (load_dashboard nan_machine none answering "http://api" "now" uuids page)

load_dashboard-IsFinite_example : IsFiniteDashboard nan_machine loaded
unfolding load_dashboard try_dashboard get_json ◌^^◌ items records to_record evidence_prints
load_dashboard-IsFinite_example =
    load_dashboard-IsFinite nan_machine-KeepsFinite none answering "http://api" "now" uuids page tt
      refl

empty-IsFinite : IsFiniteDashboard nan_machine empty
empty-IsFinite = record { candidates = tt; recent_events = tt }

-- A discovery whose revision is NaN.
abbrev discovery : PromotionEventEnvelope Number
discovery = record {
  id = "e";
  sequence = some 7;
  schema_version = some 1;
  event_type = "CANDIDATE_DISCOVERED";
  occurred_at = "2026-08-01";
  actor = "detector";
  candidate_id = some "c1";
  evaluation_run_id = none;
  schedule_run_id = none;
  registry_operation_id = none;
  correlation_id = "k";
  causation_id = none;
  policy_hash = none;
  payload = field "revision" (num none) end;
}

apply_promotion_event-IsFinite_example :
    IsFiniteDashboard nan_machine (apply_promotion_event nan_machine empty discovery)
apply_promotion_event-IsFinite_example =
    apply_promotion_event-IsFinite nan_machine-KeepsFinite empty discovery refl empty-IsFinite

-- A run whose dates cannot be read has NaN for its duration, which is shown as it is.
abbrev undated : Value Number
undated = obj (field "started_at" (str "today") (field "finished_at" (str "later") end))

abbrev undated_duration : Option Number
undated_duration = (map_evaluation nan_machine (uuids 0) [] undated).duration_milliseconds

duration_is_nan : undated_duration ≡ some none
unfolding map_evaluation to_record computed_duration nullable_string
duration_is_nan = refl

duration_is_shown : format_duration nan_machine (some none) ≡ "NaN seconds"
unfolding format_duration ◌^^◌
duration_is_shown = refl
