-- ===== src/Examples/Orders.antt =====
-- Events in two orders, and copy whose fields stand in two orders.
use mathlib.Core.List.{Permᴰ}
use agent_promotion_control.Prelude.{
  ℕ, ◌≡◌, refl, String, Bool, true, none, inl, [], ◌∷◌, ltb, arith,
}
use agent_promotion_control.Js.{Value, str, obj, field, end, utf16_length}
use agent_promotion_control.View.{TimelineEventViewModel}
use agent_promotion_control.Live.Window.{IsTimeline}
use agent_promotion_control.Live.Batches.{push_all, push_all-Permᴰ}
use agent_promotion_control.Copy.{canonicalize_governed_copy}
use agent_promotion_control.Copy.Canonical.{
  SameValue, in_object, swapped, canonicalize_governed_copy-SameValue,
}
use agent_promotion_control.Examples.Machine.{machine, machine-IsOrdered}

abbrev early : TimelineEventViewModel ℕ
early = record {
  id = "e1";
  sequence = 3;
  event_type = "EVALUATION_STARTED";
  occurred_at = "2026-08-01";
  actor = "worker";
  headline = "";
  detail = "";
  correlation_id = none;
  causation_id = none;
}

abbrev late : TimelineEventViewModel ℕ
late = record early { id = "e2"; sequence = 4 }

nothing-IsTimeline : IsTimeline machine []
nothing-IsTimeline = record { finite = tt; descending = tt }

push_all-Permᴰ_example :
    push_all machine (early ∷ late ∷ []) [] ≡ push_all machine (late ∷ early ∷ []) []
push_all-Permᴰ_example =
    push_all-Permᴰ machine-IsOrdered [] (Permᴰ.swap refl refl)
      ((refl, (refl, tt)), (((refl, refl), tt), (tt, tt))) nothing-IsTimeline

abbrev longer : String → String → Bool
longer a b = ltb (utf16_length b) (utf16_length a)

longer_trans : (a b c : String) → longer a b ≡ true → longer b c ≡ true → longer a c ≡ true
longer_trans a b c h k = ground arith

abbrev copy : Value ℕ
copy = obj (field "label" (str "Promote") (field "undo" (str "None") end))

abbrev copy_swapped : Value ℕ
copy_swapped = obj (field "undo" (str "None") (field "label" (str "Promote") end))

copy-SameValue : SameValue longer copy copy_swapped
unfolding utf16_length
copy-SameValue = in_object (swapped (inl (refl, refl)))

canonicalize_governed_copy-SameValue_example :
    canonicalize_governed_copy machine longer copy
    ≡ canonicalize_governed_copy machine longer copy_swapped
canonicalize_governed_copy-SameValue_example =
    canonicalize_governed_copy-SameValue longer longer_trans machine copy copy_swapped
      copy-SameValue
