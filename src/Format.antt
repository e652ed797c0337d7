-- ===== src/Format.antt =====
-- packages/promotion-ui/src/format.ts: labels, dates and visual tones.
use Prim.Native.Char.{code}
use Prim.Native.String.{[], ◌∷◌}
use mathlib.Core.Option
use agent_promotion_control.Prelude.{
  ℕ, suc, String, ◌||◌, Option, none, some, map, ltb, get_or, ◌==◌, if◌then◌else◌,
}
use agent_promotion_control.Js.{Runtime, ◌^^◌, split, join, includes, pad_two}
use agent_promotion_control.View.{CandidateViewModel, GateVerdict, failed, remaining}

module _ {N : Type 0} (js : Runtime N) where
  open js use {to_lower_case, to_upper_case}

  -- `${part.slice(0, 1).toUpperCase()}${part.slice(1)}`. The first UTF-16 unit of a character above
  -- 0xffff is half of a pair, which has no upper case.
  capitalize : String → String
  capitalize [] = to_upper_case ""
  capitalize (c ∷ s) = if ltb (code c) 0x10000 then to_upper_case (c ∷ "") ^^ s else c ∷ s

  unfoldable pub humanize : String → String
  unfolding capitalize
  humanize value = join " " (map capitalize (split b'_' (to_lower_case value)))

  -- `String(n).padStart(2, "0")`, which several views write.
  unfoldable pub two_digits : ℕ → String
  two_digits n = pad_two (js.to_text (js.of_nat n))

  -- `String(index + 1).padStart(2, "0")`: the first one has the number 1.
  unfoldable pub position : ℕ → String
  unfolding two_digits
  position i = two_digits (suc i)

  unfoldable pub format_percent : N → String
  format_percent value = js.to_text (js.round value) ^^ "%"

  unfoldable pub format_score : Option N → String
  format_score none = "Not required"
  format_score (some value) = js.to_fixed value ^^ " of 100"

  -- `formatUtc`: `calendar` is the formatter of `Intl.DateTimeFormat`; a date is a finite number or
  -- NaN.
  unfoldable pub format_utc : (N → String) → Option String → String
  format_utc calendar none = "Never observed"
  format_utc calendar (some value) =
      let date = js.of_date value in
      if value == ""
      then "Never observed"
      else if js.is_finite date
      then calendar date
      else "Unknown time"

pub data VisualTone : Type 0 where
  neutral decision comparison degraded stop : VisualTone

unfoldable pub blocker_tone : {N : Type 0} → Runtime N → CandidateViewModel N → VisualTone
blocker_tone js candidate =
    let code = get_or (Option.map js.to_upper_case candidate.blocker_code) "" in
    if includes code "SAFETY" || includes code "AUTHORIZATION"
    then stop
    else if candidate.status == "BLOCKED" || candidate.status == "SUSPENDED"
    then degraded
    else neutral

unfoldable pub gate_tone : GateVerdict → VisualTone
gate_tone failed = degraded
gate_tone remaining = degraded
gate_tone _ = neutral

unfoldable pub activation_tone : String → VisualTone
activation_tone state =
    if state == "PENDING" then decision else if state == "FAILED" then degraded else neutral

unfoldable pub connection_tone : String → VisualTone
connection_tone state = if state == "DISCONNECTED" || state == "DEGRADED" then degraded else neutral
