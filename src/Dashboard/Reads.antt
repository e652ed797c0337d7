-- ===== src/Dashboard/Reads.antt =====
-- apps/web/src/lib/api.ts: `getJson`, and how `loadDashboard` finds a record by a key.
use agent_promotion_control.Prelude.{
  String, Bool, ◌&&◌, not, none, some, Option, List, [], ◌∷◌, keep, find, ◌==◌, nat_eq,
  if◌then◌else◌,
}
use agent_promotion_control.Js.{
  Value, undefined, obj, arr, nil, Fields, end, field, ◌!◌, Runtime, ◌^^◌,
}
use agent_promotion_control.Fetch.{Outcome, returns, throws, Request, Response, json_of}
use agent_promotion_control.Api.{string}

unfoldable pub get_request : {N : Type 0} → String → String → Request N
get_request base path = record {
  url = base ^^ path;
  method = "GET";
  headers = ("Accept", "application/json") ∷ [];
  body = none;
}

module _ {N : Type 0} (js : Runtime N) where
  -- What `getJson` makes of a response; a missing optional resource reads as an empty list.
  unfoldable pub json_body : String → Bool → Response N → Outcome (Value N)
  json_body path required response =
      if response.ok
      then json_of response.json
      else if not required && nat_eq response.status 404
      then returns (obj (field "items" (arr nil) end))
      else throws
          ("FastAPI returned " ^^ js.to_text (js.of_nat response.status) ^^ " for " ^^ path ^^ ".")

  unfoldable pub get_json : (Request N → Response N) → String → String → Bool → Outcome (Value N)
  unfolding get_request json_body
  get_json fetch base path required = json_body path required (fetch (get_request base path))

module _ {N : Type 0} where
  -- `string(item[key]) === text`.
  abbrev pub has_key : String → String → Fields N → Bool
  has_key key text item = string (item ! key) "" == text

  -- `items.find((item) => string(item[key]) === text)`.
  abbrev pub find_by : String → String → List (Fields N) → Option (Fields N)
  find_by key text = find (has_key key text)

  -- `item?.key`.
  abbrev pub read_from : Option (Fields N) → String → Value N
  read_from none key = undefined
  read_from (some item) key = item ! key

  abbrev pub value_of : Option (Fields N) → Value N
  value_of none = undefined
  value_of (some item) = obj item

  -- `[detail, ...rows.filter((row) => string(row.id) !== id)]`.
  unfoldable pub in_front : Fields N → String → List (Fields N) → List (Fields N)
  in_front detail id rows = detail ∷ keep (λ row. not (has_key "id" id row)) rows

  -- `Object.keys(detail).length > 0`.
  abbrev pub if_fields : {A : Type 0} → Fields N → (Fields N → A) → A → A
  if_fields end present absent = absent
  if_fields (field key value rest) present absent = present (field key value rest)
