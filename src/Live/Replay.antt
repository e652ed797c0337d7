-- ===== src/Live/Replay.antt =====
-- packages/promotion-ui/src/live.ts: delivering an event again. The stream replays events after a
-- reconnect, so `applyPromotionEvent` drops a sequence number that it has seen.
use agent_promotion_control.Prelude.{
  String, Bool, ◌&&◌, not, ◌≡◌, refl, inl, inr, true, false, Option, none, some, List, [], ◌∷◌, map,
  get_or, ◌or_else◌, any, Bool-cases, Option-cases, ◌==◌,
}
use agent_promotion_control.Js.{Fields, Runtime, IsOrdered}
use agent_promotion_control.View.{
  CandidateViewModel, TimelineEventViewModel, PromotionEventEnvelope, DashboardViewModel,
  EvaluationSummaryViewModel,
}
use agent_promotion_control.Live.Apply.{
  truthy, to_recent_event, update_evaluation, update_candidate, is_candidate, update_candidates,
  apply_promotion_event,
}
use agent_promotion_control.Live.Window.{IsTimeline}
use agent_promotion_control.Live.Feed.{push_recent_idem, push_timeline_idem}
use agent_promotion_control.Live.Orderly.{touch, touch-id}

get_or_idem : {A : Type 0} (o : Option A) (d : A) → get_or o (get_or o d) ≡ get_or o d
get_or_idem none d = refl
get_or_idem (some a) d = refl

or_else_idem : {A : Type 0} (o p : Option A) → (o or_else (o or_else p)) ≡ (o or_else p)
or_else_idem none p = refl
or_else_idem (some a) p = refl

-- The event names a candidate that the dashboard does not hold, and announces it.
abbrev pub is_discovery :
    {N : Type 0} → String → PromotionEventEnvelope N → List (CandidateViewModel N) → Bool
is_discovery id event candidates =
    not (any (is_candidate id) candidates) && event.event_type == "CANDIDATE_DISCOVERED"

module _ {N : Type 0} (js : Runtime N) where
  update_evaluation_idem :
      (payload : Fields N) (s : EvaluationSummaryViewModel N)
      → update_evaluation js payload (update_evaluation js payload s)
        ≡ update_evaluation js payload s
  unfolding update_evaluation
  update_evaluation_idem payload s = simp (get_or_idem, or_else_idem)

  pub update_candidate_idem :
      (e : PromotionEventEnvelope N) (r : TimelineEventViewModel N) (c : CandidateViewModel N)
      → js.same r.sequence r.sequence ≡ true
      → update_candidate js e r (update_candidate js e r c) ≡ update_candidate js e r c
  unfolding update_candidate
  update_candidate_idem e r c same =
      simp
        (get_or_idem, or_else_idem, update_evaluation_idem, push_timeline_idem js r c.timeline same)

  touch_idem :
      (id : String) (e : PromotionEventEnvelope N) (r : TimelineEventViewModel N)
      (c : CandidateViewModel N)
      → js.same r.sequence r.sequence ≡ true
      → touch js id e r (touch js id e r c) ≡ touch js id e r c
  unfolding update_candidate
  touch_idem id e r c same = elim (Bool-cases (is_candidate id c)) [
    | inl here ↦ rw here (rw here (update_candidate_idem e r c same))
    | inr other ↦ rw other (rw other refl)
  ]

  any-touch :
      (id : String) (e : PromotionEventEnvelope N) (r : TimelineEventViewModel N)
      (cs : List (CandidateViewModel N))
      → any (is_candidate id) (map (touch js id e r) cs) ≡ any (is_candidate id) cs
  any-touch id e r [] = refl
  any-touch id e r (c ∷ cs) = rw (touch-id js id e r c, any-touch id e r cs) refl

  map-touch_idem :
      (id : String) (e : PromotionEventEnvelope N) (r : TimelineEventViewModel N)
      (cs : List (CandidateViewModel N))
      → js.same r.sequence r.sequence ≡ true
      → map (touch js id e r) (map (touch js id e r) cs) ≡ map (touch js id e r) cs
  map-touch_idem id e r [] same = refl
  map-touch_idem id e r (c ∷ cs) same = cc (touch_idem id e r c same, map-touch_idem id e r cs same)

  update_candidates_idem :
      (id : String) (e : PromotionEventEnvelope N) (r : TimelineEventViewModel N)
      (cs : List (CandidateViewModel N))
      → js.same r.sequence r.sequence ≡ true
      → is_discovery id e cs ≡ false
      → update_candidates js id e r (update_candidates js id e r cs)
        ≡ update_candidates js id e r cs
  unfolding update_candidates
  update_candidates_idem id e r cs same old =
      rw old (rw (any-touch id e r cs) (rw old (map-touch_idem id e r cs same)))

module _ {N : Type 0} {js : Runtime N} (laws : IsOrdered N js) where
  -- Applying an event a second time changes nothing, unless the first time discovered a candidate:
  -- for a finite sequence number and a dashboard whose recent events are newest first, without repetition.
  pub apply_promotion_event_idem :
      (d : DashboardViewModel N) (e : PromotionEventEnvelope N)
      → js.is_finite e.sequence ≡ true
      → IsTimeline js d.recent_events
      → ((id : String) → truthy e.candidate_id ≡ some id → is_discovery id e d.candidates ≡ false)
      → apply_promotion_event js (apply_promotion_event js d e) e ≡ apply_promotion_event js d e
  unfolding apply_promotion_event to_recent_event
  apply_promotion_event_idem d e fin w old =
      let r = to_recent_event js e in
      let events = push_recent_idem laws r d.recent_events fin w in
      elim (Option-cases (truthy e.candidate_id)) [
        | inl no_candidate ↦ rw no_candidate (cc events)
        | inr (id, named) ↦
            let known =
              update_candidates_idem js id e r d.candidates (laws.same_refl e.sequence fin)
                (old id named) in
            rw named (cc (events, known))
      ]
