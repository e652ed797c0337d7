-- ===== src/Live/Orderly.antt =====
-- packages/promotion-ui/src/live.ts: the invariant of the dashboard's live state, and that
-- `applyPromotionEvent` keeps it.
use agent_promotion_control.Prelude.{
  ℕ, ◌≤◌, length, String, ◌&&◌, not, ◌≡◌, inl, inr, true, false, List, [], ◌∷◌, map, arith, any,
  All, Bool-cases, Option-cases, ◌==◌, if◌then◌else◌,
}
use agent_promotion_control.Js.{Runtime, IsOrdered}
use agent_promotion_control.View.{
  CandidateViewModel, TimelineEventViewModel, PromotionEventEnvelope, DashboardViewModel,
}
use agent_promotion_control.Live.Discovery.{create_discovered_candidate}
use agent_promotion_control.Live.Apply.{
  truthy, to_recent_event, update_candidate, is_candidate, update_candidates, apply_promotion_event,
}
use agent_promotion_control.Live.Window.{IsFinite, IsTimeline}
use agent_promotion_control.Live.Feed.{
  length-push_recent-le, push_recent-IsTimeline, push_timeline-IsTimeline,
}

module _ {N : Type 0} where
  -- No candidate has this id.
  abbrev pub IsFresh : String → List (CandidateViewModel N) → Type 0
  IsFresh id = All λ c. (c.id == id) ≡ false

  abbrev pub HasDistinctIds : List (CandidateViewModel N) → Type 0
  HasDistinctIds [] = Unit
  HasDistinctIds (c ∷ cs) = IsFresh c.id cs × HasDistinctIds cs

  IsFresh-of_any :
      (id : String) (cs : List (CandidateViewModel N))
      → any (is_candidate id) cs ≡ false
      → IsFresh id cs
  IsFresh-of_any id [] h = tt
  IsFresh-of_any id (c ∷ cs) h = (ground arith, IsFresh-of_any id cs (ground arith))

module _ {N : Type 0} (js : Runtime N) where
  abbrev pub HasTimelines : List (CandidateViewModel N) → Type 0
  HasTimelines = All λ c. IsTimeline js c.timeline

  pub record IsOrderly (n : ℕ) (d : DashboardViewModel N) : Type 0 where
    pub window : IsTimeline js d.recent_events
    pub short : length d.recent_events ≤ n
    pub timelines : HasTimelines d.candidates
    pub distinct : HasDistinctIds d.candidates

  -- What `map` does to one candidate.
  abbrev pub touch :
      String
      → PromotionEventEnvelope N
      → TimelineEventViewModel N
      → CandidateViewModel N
      → CandidateViewModel N
  touch id event recent c = if is_candidate id c then update_candidate js event recent c else c

  pub touch-id :
      (id : String) (e : PromotionEventEnvelope N) (r : TimelineEventViewModel N)
      (c : CandidateViewModel N)
      → (touch id e r c).id ≡ c.id
  unfolding update_candidate
  touch-id id e r c = ground arith

  map-IsFresh :
      (k id : String) (e : PromotionEventEnvelope N) (r : TimelineEventViewModel N)
      (cs : List (CandidateViewModel N))
      → IsFresh k cs
      → IsFresh k (map (touch id e r) cs)
  map-IsFresh k id e r [] h = tt
  map-IsFresh k id e r (c ∷ cs) (p, h) = (rw (touch-id id e r c) p, map-IsFresh k id e r cs h)

  map-HasDistinctIds :
      (id : String) (e : PromotionEventEnvelope N) (r : TimelineEventViewModel N)
      (cs : List (CandidateViewModel N))
      → HasDistinctIds cs
      → HasDistinctIds (map (touch id e r) cs)
  map-HasDistinctIds id e r [] h = tt
  map-HasDistinctIds id e r (c ∷ cs) (p, h) =
      (rw (touch-id id e r c) (map-IsFresh c.id id e r cs p), map-HasDistinctIds id e r cs h)

module _ {N : Type 0} {js : Runtime N} (laws : IsOrdered N js) where
  touch-IsTimeline :
      (id : String) (e : PromotionEventEnvelope N) (r : TimelineEventViewModel N)
      (c : CandidateViewModel N)
      → IsFinite js r
      → IsTimeline js c.timeline
      → IsTimeline js (touch js id e r c).timeline
  unfolding update_candidate
  touch-IsTimeline id e r c fin t = elim (Bool-cases (is_candidate id c)) [
    | inl here ↦ rw here (push_timeline-IsTimeline laws r c.timeline fin t)
    | inr other ↦ rw other t
  ]

  map-HasTimelines :
      (id : String) (e : PromotionEventEnvelope N) (r : TimelineEventViewModel N)
      (cs : List (CandidateViewModel N))
      → IsFinite js r
      → HasTimelines js cs
      → HasTimelines js (map (touch js id e r) cs)
  map-HasTimelines id e r [] fin h = tt
  map-HasTimelines id e r (c ∷ cs) fin (t, h) =
      (touch-IsTimeline id e r c fin t, map-HasTimelines id e r cs fin h)

  update_candidates-HasTimelines :
      (id : String) (e : PromotionEventEnvelope N) (r : TimelineEventViewModel N)
      (cs : List (CandidateViewModel N))
      → IsFinite js r
      → HasTimelines js cs
      → HasTimelines js (update_candidates js id e r cs)
  unfolding update_candidates create_discovered_candidate
  update_candidates-HasTimelines id e r cs fin h =
      let kept = map-HasTimelines id e r cs fin h in
      elim (Bool-cases (not (any (is_candidate id) cs) && e.event_type == "CANDIDATE_DISCOVERED")) [
        | inl found ↦ rw found (record { finite = (fin, tt); descending = (tt, tt) }, kept)
        | inr known ↦ rw known kept
      ]

  update_candidates-HasDistinctIds :
      (id : String) (e : PromotionEventEnvelope N) (r : TimelineEventViewModel N)
      (cs : List (CandidateViewModel N))
      → HasDistinctIds cs
      → HasDistinctIds (update_candidates js id e r cs)
  unfolding update_candidates create_discovered_candidate
  update_candidates-HasDistinctIds id e r cs h =
      let kept = map-HasDistinctIds js id e r cs h in
      elim (Bool-cases (not (any (is_candidate id) cs) && e.event_type == "CANDIDATE_DISCOVERED")) [
        | inl found ↦
            let fresh : any (is_candidate id) cs ≡ false = ground arith in
            rw found (map-IsFresh js id id e r cs (IsFresh-of_any id cs fresh), kept)
        | inr known ↦ rw known kept
      ]

  -- Applied to an event with a finite sequence number, with a bound of 40 or more on the recent
  -- events: they stay newest first, without repetition and within the bound, each candidate's
  -- timeline stays newest first without repetition, and no two candidates come to share an id.
  pub apply_promotion_event-IsOrderly :
      (n : ℕ) (d : DashboardViewModel N) (e : PromotionEventEnvelope N)
      → 40 ≤ n
      → js.is_finite e.sequence ≡ true
      → IsOrderly js n d
      → IsOrderly js n (apply_promotion_event js d e)
  unfolding apply_promotion_event to_recent_event
  apply_promotion_event-IsOrderly n d e wide fin o =
      let recent = to_recent_event js e in
      let window = push_recent-IsTimeline laws recent d.recent_events fin o.window in
      let short = length-push_recent-le js n recent d.recent_events wide o.short in
      elim (Option-cases (truthy e.candidate_id)) [
        | inl no_candidate ↦ rw no_candidate (record {
          window = window;
          short = short;
          timelines = o.timelines;
          distinct = o.distinct;
        })
        | inr (id, named) ↦ rw named (record {
          window = window;
          short = short;
          timelines = update_candidates-HasTimelines id e recent d.candidates fin o.timelines;
          distinct = update_candidates-HasDistinctIds id e recent d.candidates o.distinct;
        })
      ]
