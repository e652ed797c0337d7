-- ===== src/Examples/Loading.antt =====
-- Runs of `loadDashboard` and of the normalisation of bodies, and the theorems about them there.
use mathlib.Core.Path.{subst}
use agent_promotion_control.Prelude.{
  ℕ, String, ◌≡◌, ◌⊎◌, inl, inr, if-either, refl, true, false, none, some, [], ◌==◌, if◌then◌else◌,
  all,
}
use agent_promotion_control.Js.{
  prints, Value, str, bool, obj, arr, nil, cons, Fields, end, field, ◌^^◌, encode_uri_component,
}
use agent_promotion_control.Fetch.{returns, throws, Request, Response}
use agent_promotion_control.Api.{
  evidence_prints, details_print, items, to_record, map_gate, normalize_candidate,
  hard_gates_passed, map_gates, results_of, records, kind_of, string, verdict_of,
  hard_gates_required,
}
use agent_promotion_control.Api.Gates.{IsCounted, normalize_candidate-IsCounted}
use agent_promotion_control.Dashboard.{
  get_request, Page, get_json, load_dashboard, try_dashboard, detail_candidates, in_front,
}
use agent_promotion_control.Dashboard.Laws.{
  IsAvailable, load_dashboard-IsAvailable, missing_candidate,
}
use agent_promotion_control.Dashboard.Printable.{Returns}
use agent_promotion_control.Dashboard.Totality.{IsServed, IsUp, load_dashboard-Returns}
use agent_promotion_control.Examples.Machine.{machine}

-- A control plane with no candidates, and a 404 for every optional resource.
abbrev answering : Request ℕ → Response ℕ
answering request =
    if request.url == "http://api/api/v1/dashboard"
    then record { ok = true; status = 200; json = some (obj end) }
    else if request.url == "http://api/api/v1/candidates"
    then record { ok = true; status = 200; json = some (arr nil) }
    else if request.url == "http://api/api/v1/schedules"
    then record { ok = true; status = 200; json = some (arr nil) }
    else if request.url == "http://api/api/v1/events?limit=80"
    then record { ok = true; status = 200; json = some (arr nil) }
    else record { ok = false; status = 404; json = none }

abbrev uuids : ℕ → ℕ → String
uuids i j = "uuid"

abbrev plain_page : Page
plain_page = record { candidate_id = none; evaluation_id = none; registry_agent_id = none }

load_dashboard-IsAvailable_example : IsAvailable answering "http://api"
unfolding load_dashboard try_dashboard get_json ◌^^◌ items records to_record
load_dashboard-IsAvailable_example =
    load_dashboard-IsAvailable machine answering "http://api" "now" uuids plain_page refl

missing_candidate_example :
    (row : Fields ℕ) × (detail_candidates machine
        (λ path. get_json machine answering "http://api" path false)
        []
        []
        []
        "gone"
      ≡ returns (in_front row "gone" []))
    × ((normalize_candidate machine (uuids 0) (obj row) []).id ≡ "candidate-unknown")
unfolding ◌^^◌ encode_uri_component get_request
missing_candidate_example =
    missing_candidate machine answering "http://api" "gone" [] [] [] (uuids 0) refl refl refl

-- A control plane that lists one candidate, with a summary, an artifact and a detail that has a
-- property `toString`.
abbrev listing : Request ℕ → Response ℕ
listing request =
    if request.url == "http://api/api/v1/candidates"
    then record { ok = true; status = 200; json = some (arr (cons (obj listed) nil)) }
    else answering request
  where
    strange : Value ℕ
    strange = obj (field "toString" (bool true) end)

    artifact : Value ℕ
    artifact =
        obj (
          field "summary" (str "A report")
            (field "evidence" (obj (field "origin" strange end)) end))

    listed : Fields ℕ
    listed = field "id" (str "c1") (field "evidence_artifacts" (arr (cons artifact nil)) end)

-- The candidate keeps the dashboard from loading.
strange_detail :
    load_dashboard machine none listing "http://api" "now" uuids plain_page
    ≡ throws "Cannot convert object to primitive value"
unfolding load_dashboard try_dashboard get_json ◌^^◌ items records to_record evidence_prints
    details_print prints
strange_detail = refl

abbrev gate : Value ℕ
gate = obj (field "hard_gate" (bool true) (field "verdict" (str "PASSED") end))

abbrev gated : Value ℕ
gated = obj (field "gates" (arr (cons gate (cons (obj end) nil))) end)

normalize_candidate-IsCounted_example :
    IsCounted machine (normalize_candidate machine (uuids 0) gated [])
unfolding to_record
normalize_candidate-IsCounted_example =
    normalize_candidate-IsCounted machine (uuids 0) gated [] refl refl

gated_run :
    ((normalize_candidate machine (uuids 0) gated []).hard_gates_passed ≡ some 1)
    × ((normalize_candidate machine (uuids 0) gated []).hard_gates_required ≡ some 2)
unfolding normalize_candidate map_gate hard_gates_passed to_record map_gates results_of records
    kind_of string verdict_of hard_gates_required
gated_run = (refl, refl)

abbrev paged : Page
paged = record { candidate_id = some "gone"; evaluation_id = some "gone"; registry_agent_id = none }

abbrev IsAnswered : Response ℕ → Type 0
IsAnswered response = IsServed response ⊎ ((response.ok ≡ false) × (response.status ≡ 404))

-- A candidate in the body, if there is one, has no evidence that cannot be converted.
abbrev IsPlain : Response ℕ → Type 0
IsPlain response = (v : Value ℕ) → response.json ≡ some v → evidence_prints (to_record v) ≡ true

some-injective : {A : Type 0} {a b : A} → some a ≡ some b → a ≡ b
some-injective e = cc e

same-evidence_prints :
    (w v : Value ℕ)
    → evidence_prints (to_record w) ≡ true
    → some w ≡ some v
    → evidence_prints (to_record v) ≡ true
same-evidence_prints w v printed e =
    subst (λ x. evidence_prints (to_record x) ≡ true) (some-injective e) printed

same-items :
    (w v : Value ℕ)
    → all evidence_prints (items w) ≡ true
    → some w ≡ some v
    → all evidence_prints (items v) ≡ true
same-items w v printed e =
    subst (λ x. all evidence_prints (items x) ≡ true) (some-injective e) printed

answering-IsPlain : (r : Request ℕ) → IsPlain (answering r)
unfolding evidence_prints to_record records details_print
answering-IsPlain r =
    let listed = λ (v : Value ℕ). same-evidence_prints (arr nil) v refl in
    if-either IsPlain (r.url == "http://api/api/v1/dashboard")
      (λ _ v. same-evidence_prints (obj end) v refl)
      (λ _.
        if-either IsPlain (r.url == "http://api/api/v1/candidates") (λ _. listed)
          (λ _.
            if-either IsPlain (r.url == "http://api/api/v1/schedules") (λ _. listed)
              (λ _.
                if-either IsPlain (r.url == "http://api/api/v1/events?limit=80") (λ _. listed)
                  (λ _ v e. cc e))))

-- Each path is answered with a success or a 404.
answering-IsUp : IsUp answering "http://api"
unfolding ◌^^◌ get_request items records to_record
answering-IsUp = record {
  dashboard = (refl, (obj end, refl));
  candidates = (refl, (arr nil, refl));
  schedules = (refl, (arr nil, refl));
  events = (refl, (arr nil, refl));
  others = λ path. by_url (get_request "http://api" path);
  rows_print = λ v e. same-items (arr nil) v refl e;
  detail_prints = λ id v e.
      answering-IsPlain
        (get_request "http://api" ("/api/v1/candidates/" ^^ encode_uri_component id)) v e;
}
  where
    by_url : (r : Request ℕ) → IsAnswered (answering r)
    by_url r =
        if-either IsAnswered (r.url == "http://api/api/v1/dashboard")
          (λ _. inl (refl, (obj end, refl)))
          (λ _.
            if-either IsAnswered (r.url == "http://api/api/v1/candidates")
              (λ _. inl (refl, (arr nil, refl)))
              (λ _.
                if-either IsAnswered (r.url == "http://api/api/v1/schedules")
                  (λ _. inl (refl, (arr nil, refl)))
                  (λ _.
                    if-either IsAnswered (r.url == "http://api/api/v1/events?limit=80")
                      (λ _. inl (refl, (arr nil, refl))) (λ _. inr (refl, refl)))))

load_dashboard-Returns_example :
    Returns (load_dashboard machine none answering "http://api" "now" uuids paged)
load_dashboard-Returns_example =
    load_dashboard-Returns machine none answering "http://api" "now" uuids paged answering-IsUp
