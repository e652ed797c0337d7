-- ===== src/Dashboard/Printable.antt =====
-- apps/web/src/lib/api.ts: what the requests of `loadDashboard` give, and the rows whose evidence can
-- be converted to texts.
use mathlib.Core.Path.{subst}
use agent_promotion_control.Prelude.{
  String, ◌≡◌, sym, refl, inl, inr, true, false, none, some, Option, List, all, all-keep,
  Bool-cases, ◌==◌,
}
use agent_promotion_control.Js.{Value, Fields, end, field, Runtime, assign}
use agent_promotion_control.Fetch.{Outcome, returns, throws, ◌>>=◌, returns-injective}
use agent_promotion_control.Api.{evidence_prints}
use agent_promotion_control.Mutation.Agreement.{get-assign}
use agent_promotion_control.Dashboard.{
  if_fields, enrich_gates, with_results, in_front, unless_absent,
}

-- A value comes out.
abbrev pub Returns : {A : Type 0} → Outcome A → Type 0
Returns o = (value : _) × (o ≡ returns value)

pub bind-Returns :
    {A B : Type 0} (first : Outcome A) (continue : A → Outcome B)
    → Returns first
    → ((value : A) → Returns (continue value))
    → Returns (first >>= continue)
bind-Returns (returns value) continue h k = k value
bind-Returns (throws message) continue (value, h) k = cc h

-- A value comes out of which this holds.
abbrev pub Gives : {A : Type 0} → (A → Type 0) → Outcome A → Type 0
Gives P o = (value : _) × (o ≡ returns value) × P value

pub bind-Gives :
    {A B : Type 0} (P : A → Type 0) (Q : B → Type 0) (first : Outcome A) (continue : A → Outcome B)
    → Gives P first
    → ((value : A) → P value → Gives Q (continue value))
    → Gives Q (first >>= continue)
bind-Gives P Q (returns value) continue (given, e, h) k =
    k value (subst P (sym (returns-injective e)) h)
bind-Gives P Q (throws message) continue (given, e, h) k = cc e

pub from-Gives :
    {A B : Type 0} (P : A → Type 0) (first : Outcome A) (continue : A → Outcome B)
    → Gives P first
    → ((value : A) → P value → Returns (continue value))
    → Returns (first >>= continue)
from-Gives P (returns value) continue (given, e, h) k =
    k value (subst P (sym (returns-injective e)) h)
from-Gives P (throws message) continue (given, e, h) k = cc e

pub after-Gives :
    {A B : Type 0} (Q : B → Type 0) (first : Outcome A) (continue : A → Outcome B)
    → Returns first
    → ((value : A) → Gives Q (continue value))
    → Gives Q (first >>= continue)
after-Gives Q (returns value) continue h k = k value
after-Gives Q (throws message) continue (given, e) k = cc e

pub unless_absent-Gives :
    {A : Type 0} (Q : A → Type 0) (id : Option String) (skipped : Outcome A)
    (load : String → Outcome A)
    → Gives Q skipped
    → ((s : String) → Gives Q (load s))
    → Gives Q (unless_absent id skipped load)
unless_absent-Gives Q none skipped load h k = h
unless_absent-Gives Q (some id) skipped load h k = elim (Bool-cases (id == "")) [
  | inl empty ↦ rw empty h
  | inr given ↦ rw given (k id)
]

module _ {N : Type 0} where
  abbrev pub AllPrint : List (Fields N) → Type 0
  AllPrint rows = all evidence_prints rows ≡ true

  abbrev pub Prints : Fields N → Type 0
  Prints row = evidence_prints row ≡ true

  pub if_fields-Gives :
      {A : Type 0} (Q : A → Type 0) (fs : Fields N) (present : Fields N → Outcome A)
      (absent : Outcome A)
      → Prints fs
      → ((gs : Fields N) → Prints gs → Gives Q (present gs))
      → Gives Q absent
      → Gives Q (if_fields fs present absent)
  if_fields-Gives Q end present absent p h k = k
  if_fields-Gives Q (field key value rest) present absent p h k = h (field key value rest) p

  assign-Prints :
      (key : String) (v : Value N) (fs : Fields N)
      → (key == "evidence_artifacts") ≡ false
      → (key == "artifacts") ≡ false
      → (key == "evidence") ≡ false
      → (key == "detector_evidence") ≡ false
      → Prints fs
      → Prints (assign key v fs)
  unfolding evidence_prints
  assign-Prints key v fs a b c d h =
      rw
        (
          get-assign key "evidence_artifacts" v fs,
          get-assign key "artifacts" v fs,
          get-assign key "evidence" v fs,
          get-assign key "detector_evidence" v fs,
          a,
          b,
          c,
          d,
        )
        h

  pub enrich_gates-Prints :
      (js : Runtime N) (criteria : List (Fields N)) (detail : Fields N)
      → Prints detail
      → Prints (enrich_gates js criteria detail)
  unfolding enrich_gates
  enrich_gates-Prints js criteria detail h = assign-Prints "gates" _ detail refl refl refl refl h

  pub with_results-Prints :
      (criteria : List (Fields N)) (detail run_detail latest_run : Fields N)
      → Prints detail
      → Prints (with_results criteria detail run_detail latest_run)
  unfolding with_results
  with_results-Prints criteria detail run_detail latest_run h =
      assign-Prints "results" _ detail refl refl refl refl h

  pub in_front-AllPrint :
      (detail : Fields N) (id : String) (rows : List (Fields N))
      → Prints detail
      → AllPrint rows
      → AllPrint (in_front detail id rows)
  unfolding in_front
  in_front-AllPrint detail id rows p h = rw p (all-keep evidence_prints _ rows h)
