-- ===== src/Fetch.antt =====
-- What `fetch` is given and gives back, and errors as values. The network is a parameter: a function
-- from a request to a response.
use agent_promotion_control.Prelude.{
  ℕ, String, Bool, ◌≡◌, refl, true, false, not, ◌&&◌, Option, none, some, List, if◌then◌else◌,
}
use agent_promotion_control.Js.{
  Value, undefined, null, Fields, property, ◌⁇◌, Runtime, ◌^^◌, is_truthy, text_of, prints,
  cannot_convert,
}

-- What a function of the source does: it gives a value, or it throws an error with a message.
pub data Outcome (A : Type 0) : Type 0 where
  throws : String → Outcome A
  returns : A → Outcome A

infixl 5 ◌>>=◌ ◌>>◌
abbrev pub ◌>>=◌ : {A B : Type 0} → Outcome A → (A → Outcome B) → Outcome B
throws message >>= continue = throws message
returns value >>= continue = continue value

abbrev pub ◌>>◌ : {B : Type 0} → Outcome (Unit {0}) → Outcome B → Outcome B
check >> next = check >>= λ _. next

-- `if (!test) throw new Error(message)`.
abbrev pub require : Bool → String → Outcome (Unit {0})
require test message = if test then returns tt else throws message

-- What is known of the parts of a sequence that gives a value.
pub >>=-eq-returns :
    {A B : Type 0} (first : Outcome A) (continue : A → Outcome B) {value : B}
    → (first >>= continue) ≡ returns value
    → (between : A) × (first ≡ returns between) × (continue between ≡ returns value)
>>=-eq-returns (throws message) continue h = cc
>>=-eq-returns (returns between) continue h = (between, refl, h)

pub >>=-total :
    {A B : Type 0} (first : Outcome A) (continue : A → Outcome B) {between : A}
    → first ≡ returns between
    → (value : B) × (continue between ≡ returns value)
    → (value : B) × ((first >>= continue) ≡ returns value)
>>=-total first continue e (value, h) = (value, rw e h)

pub require-eq :
    (test : Bool) (message : String) (u : Unit {0}) → require test message ≡ returns u → test ≡ true
require-eq true message u h = refl
require-eq false message u h = cc

pub returns-injective : {A : Type 0} {a b : A} → returns a ≡ returns b → a ≡ b
returns-injective h = cc h

-- The body is sent as its JSON text; `none` sends no body.
pub record Request (N : Type 0) : Type 0 where
  pub url : String
  pub method : String
  pub headers : List (String × String)
  pub body : Option (Fields N)

-- `json` is what `response.json()` resolves to, `none` if it rejects.
pub record Response (N : Type 0) : Type 0 where
  pub ok : Bool
  pub status : ℕ
  pub json : Option (Value N)

-- `response.json()`, which rejects if the body is not JSON.
abbrev pub json_of : {N : Type 0} → Option (Value N) → Outcome (Value N)
json_of none = throws "The response is not JSON."
json_of (some value) = returns value

module _ {N : Type 0} (js : Runtime N) where
  default_message : ℕ → String
  default_message status =
      "Control-plane request failed with status " ^^ js.to_text (js.of_nat status) ^^ "."

  text_or_status : Value N → ℕ → String
  text_or_status undefined status = default_message status
  text_or_status null status = default_message status
  text_or_status given status = text_of js given

  -- `problem?.detail ?? problem?.title ?? …`, with the problem's code in parentheses; if one of them
  -- cannot be converted to a text, the error that is thrown is the one of the conversion.
  unfoldable pub problem_message : Value N → ℕ → String
  unfolding default_message text_or_status
  problem_message problem status =
      let given = property problem "detail" ⁇ property problem "title" in
      let message = text_or_status given status in
      let code = property problem "code" in
      if not (prints given && prints code)
      then cannot_convert
      else if is_truthy js code
      then message ^^ " (" ^^ text_of js code ^^ ")"
      else message
