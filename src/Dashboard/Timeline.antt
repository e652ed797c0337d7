-- ===== src/Dashboard/Timeline.antt =====
-- apps/web/src/lib/api.ts, about the timeline of a candidate in a dashboard that is loaded.
use mathlib.Core.List.{Perm}
use agent_promotion_control.Prelude.{
  ℕ, ◌≡◌, refl, ◌∙◌, sym, inl, inr, true, false, some, none, String, List, [], ◌∷◌, ◌++◌, map, find,
  All, Option, Bool-cases, keep, ◌==◌,
}
use agent_promotion_control.Js.{Value, obj, Fields, ◌!◌, ◌⁇◌, Runtime, IsOrdered, sort}
use agent_promotion_control.Js.Sorting.{IsOrderedBy, sort-perm, sort-IsOrderedBy}
use agent_promotion_control.View.{TimelineEventViewModel, CandidateViewModel, PolicyViewModel}
use agent_promotion_control.Live.{behind}
use agent_promotion_control.Live.Window.{IsFinite, behind-eq, gt_asymm}
use agent_promotion_control.Api.{
  records, string, number_or_zero, to_record, map_event, normalize_candidate,
}
use agent_promotion_control.Finite.Decoded.{number-IsFinite}
use agent_promotion_control.Dashboard.{
  has_key, linked_to, is_requested, policy_request, assign_policy, load_candidate,
}

module _ {N : Type 0} (js : Runtime N) where
  -- `a` is not older than `b`.
  abbrev pub IsNotOlder : TimelineEventViewModel N → TimelineEventViewModel N → Type 0
  IsNotOlder a b = js.gt b.sequence a.sequence ≡ false

  -- The events that a candidate's body lists.
  abbrev pub own_events : Fields N → List (TimelineEventViewModel N)
  own_events candidate =
      map (λ event. map_event js (obj event))
        (records (candidate ! "timeline" ⁇ candidate ! "events"))

  map_event-IsFinite :
      (v : Value N) → js.is_finite (js.of_nat 0) ≡ true → IsFinite js (map_event js v)
  unfolding map_event number_or_zero
  map_event-IsFinite v zero = number-IsFinite js (to_record v ! "sequence") (js.of_nat 0) zero

  pub mapped-IsFinite :
      (rows : List (Fields N))
      → js.is_finite (js.of_nat 0) ≡ true
      → All (IsFinite js) (map (λ event. map_event js (obj event)) rows)
  mapped-IsFinite [] zero = tt
  mapped-IsFinite (row ∷ rows) zero = (map_event-IsFinite (obj row) zero, mapped-IsFinite rows zero)

  pub linked_to-IsFinite :
      (id : String) (rows : List (Fields N))
      → js.is_finite (js.of_nat 0) ≡ true
      → All (IsFinite js) (linked_to js id rows)
  unfolding linked_to
  linked_to-IsFinite id rows zero = elim (Bool-cases (id == "")) [
    | inl empty ↦ rw empty tt
    | inr given ↦ rw given (mapped-IsFinite (keep (has_key "candidate_id" id) rows) zero)
  ]

  All-append :
      (xs ys : List (TimelineEventViewModel N))
      → All (IsFinite js) xs
      → All (IsFinite js) ys
      → All (IsFinite js) (xs ++ ys)
  All-append [] ys h k = k
  All-append (x ∷ xs) ys (p, h) k = (p, All-append xs ys h k)

  assign_policy-timeline :
      (candidate : Fields N) (policy : Option (PolicyViewModel N)) (mapped : CandidateViewModel N)
      → (assign_policy js candidate policy mapped).timeline ≡ mapped.timeline
  unfolding assign_policy
  assign_policy-timeline candidate none mapped = refl
  assign_policy-timeline candidate (some policy) mapped = refl

module _ {N : Type 0} {js : Runtime N} (laws : IsOrdered N js) where
  open laws use {same_symm, gt_congr, gt_trans, gt_total}

  -- Of three events in a row, the first is not older than the last.
  IsNotOlder-trans :
      (a b c : TimelineEventViewModel N)
      → IsFinite js a
      → IsFinite js b
      → IsFinite js c
      → IsNotOlder js a b
      → IsNotOlder js b c
      → IsNotOlder js a c
  IsNotOlder-trans a b c fa fb fc h k = elim (Bool-cases (js.same b.sequence a.sequence)) [
    | inl same ↦
        gt_congr c.sequence a.sequence b.sequence (same_symm b.sequence a.sequence same) ∙ k
    | inr other ↦ elim (Bool-cases (js.gt c.sequence a.sequence)) [
      | inl newer ↦ cc (
        gt_trans c.sequence a.sequence b.sequence newer
            (gt_total b.sequence a.sequence fb fa other h),
        k,
      )
      | inr done ↦ done
    ]
  ]

  newest_first :
      (events : List (TimelineEventViewModel N))
      → All (IsFinite js) events
      → IsOrderedBy (IsNotOlder js) (sort (behind js) events)
  newest_first events finite =
      sort-IsOrderedBy (behind js) (IsFinite js) (IsNotOlder js)
        (λ a b fa fb later.
          gt_asymm laws b.sequence a.sequence fb (sym (behind-eq laws a b fa fb) ∙ later))
        (λ a b fa fb earlier. sym (behind-eq laws a b fa fb) ∙ earlier) IsNotOlder-trans events
        finite

  -- Where 0 is a finite number, the timeline of a candidate that `loadDashboard` reads is newest first, and it is a
  -- rearrangement of the events that the candidate's body lists followed by those of the event
  -- collection that name the candidate: none is lost, and none that is in both is merged.
  pub load_candidate-timeline :
      (uuids : ℕ → String) (policies : List (PolicyViewModel N)) (raw_events : List (Fields N))
      (candidate : Fields N)
      → js.is_finite (js.of_nat 0) ≡ true
      → let loaded = load_candidate js uuids policies raw_events candidate in
        IsOrderedBy (IsNotOlder js) loaded.timeline
        × Perm loaded.timeline
            (own_events js candidate ++ linked_to js (string (candidate ! "id") "") raw_events)
  unfolding load_candidate normalize_candidate to_record
  load_candidate-timeline uuids policies raw_events candidate zero =
      let linked = linked_to js (string (candidate ! "id") "") raw_events in
      let events = own_events js candidate ++ linked in
      let mapped = normalize_candidate js uuids (obj candidate) linked in
      rw
        (assign_policy-timeline js candidate
          (find (is_requested (policy_request candidate)) policies) mapped)
        (
          newest_first events (
              All-append js (own_events js candidate) linked
                (mapped-IsFinite js (records (candidate ! "timeline" ⁇ candidate ! "events")) zero)
                (linked_to-IsFinite js (string (candidate ! "id") "") raw_events zero)),
          sort-perm (behind js) events,
        )
