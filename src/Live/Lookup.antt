-- ===== src/Live/Lookup.antt =====
-- packages/promotion-ui/src/live.ts: the candidates as the shell looks them up, by id. What an event
-- does to each lookup, and what it cannot touch.
use mathlib.Core.Option
use agent_promotion_control.Prelude.{
  String, ◌≡◌, ◌≢◌, refl, ap, ◌∙◌, inl, inr, true, false, Option, none, some, List, [], ◌∷◌, map,
  arith, any, find, is_some, Bool-cases, Option-cases, ◌==◌, eq_iff, eq_refl, if◌then◌else◌,
}
use agent_promotion_control.Js.{Runtime}
use agent_promotion_control.View.{
  CandidateViewModel, TimelineEventViewModel, PromotionEventEnvelope, DashboardViewModel,
}
use agent_promotion_control.Live.Discovery.{create_discovered_candidate}
use agent_promotion_control.Live.Apply.{
  truthy, to_recent_event, update_candidate, is_candidate, update_candidates, apply_promotion_event,
}
use agent_promotion_control.Live.Orderly.{touch, touch-id}

abbrev pub candidate_at :
    {N : Type 0} → String → List (CandidateViewModel N) → Option (CandidateViewModel N)
candidate_at k = find (is_candidate k)

any-is_some :
    {N : Type 0} (id : String) (cs : List (CandidateViewModel N))
    → any (is_candidate id) cs ≡ is_some (candidate_at id cs)
any-is_some id [] = refl
any-is_some id (c ∷ cs) = ground (arith, any-is_some id cs)

-- What an event must leave alone.
pub record IsKept {N : Type 0} (d d' : DashboardViewModel N) : Type 0 where
  pub evaluations : d'.evaluations ≡ d.evaluations
  pub policies : d'.policies ≡ d.policies
  pub schedules : d'.schedules ≡ d.schedules
  pub registry_agents : d'.registry_agents ≡ d.registry_agents
  pub live_connected : d'.live_connected ≡ d.live_connected
  pub demo_mode : d'.demo_mode ≡ d.demo_mode

module _ {N : Type 0} (js : Runtime N) where
  -- What an event does to the entry of its own candidate: an update, or the first entry.
  abbrev pub entry :
      String
      → PromotionEventEnvelope N
      → TimelineEventViewModel N
      → Option (CandidateViewModel N)
      → Option (CandidateViewModel N)
  entry id e r (some c) = some (update_candidate js e r c)
  entry id e r none =
      if e.event_type == "CANDIDATE_DISCOVERED"
      then some (create_discovered_candidate js id e r)
      else none

  find-touch_same :
      (id : String) (e : PromotionEventEnvelope N) (r : TimelineEventViewModel N)
      (cs : List (CandidateViewModel N))
      → candidate_at id (map (touch js id e r) cs)
        ≡ Option.map (update_candidate js e r) (candidate_at id cs)
  find-touch_same id e r [] = refl
  find-touch_same id e r (c ∷ cs) =
      rw (touch-id js id e r c) (ground (arith, find-touch_same id e r cs))

  find-touch_other :
      (k id : String) (e : PromotionEventEnvelope N) (r : TimelineEventViewModel N)
      (cs : List (CandidateViewModel N))
      → id ≢ k
      → candidate_at k (map (touch js id e r) cs) ≡ candidate_at k cs
  find-touch_other k id e r [] ne = refl
  find-touch_other k id e r (c ∷ cs) ne =
      rw (touch-id js id e r c)
        (ground (arith, find-touch_other k id e r cs ne, eq_iff c.id k, eq_iff c.id id))

  find-update_candidates_same :
      (id : String) (e : PromotionEventEnvelope N) (r : TimelineEventViewModel N)
      (cs : List (CandidateViewModel N))
      → candidate_at id (update_candidates js id e r cs) ≡ entry id e r (candidate_at id cs)
  unfolding update_candidates create_discovered_candidate
  find-update_candidates_same id e r cs = elim (Option-cases (candidate_at id cs)) [
    | inl missing ↦
        let fresh : any (is_candidate id) cs ≡ false = any-is_some id cs ∙ ap is_some missing in
        let same = find-touch_same id e r cs in
        rw (fresh, missing) (ground (arith, eq_refl id, same, missing))
    | inr (c, found) ↦
        let known : any (is_candidate id) cs ≡ true = any-is_some id cs ∙ ap is_some found in
        rw (known, found)
          (find-touch_same id e r cs ∙ ap (Option.map (update_candidate js e r)) found)
  ]

  find-update_candidates_other :
      (k id : String) (e : PromotionEventEnvelope N) (r : TimelineEventViewModel N)
      (cs : List (CandidateViewModel N))
      → id ≢ k
      → candidate_at k (update_candidates js id e r cs) ≡ candidate_at k cs
  unfolding update_candidates create_discovered_candidate
  find-update_candidates_other k id e r cs ne =
      ground (arith, find-touch_other k id e r cs ne, eq_iff id k)

  -- The entry of `k` after an event for the candidate named, if any.
  abbrev pub entry_after :
      Option String
      → String
      → PromotionEventEnvelope N
      → Option (CandidateViewModel N)
      → Option (CandidateViewModel N)
  entry_after none k e old = old
  entry_after (some id) k e old = if id == k then entry id e (to_recent_event js e) old else old

  candidate_at-apply :
      (d : DashboardViewModel N) (e : PromotionEventEnvelope N) (k : String)
      → candidate_at k (apply_promotion_event js d e).candidates
        ≡ entry_after (truthy e.candidate_id) k e (candidate_at k d.candidates)
  unfolding apply_promotion_event
  candidate_at-apply d e k = elim (Option-cases (truthy e.candidate_id)) [
    | inl no_candidate ↦ rw no_candidate refl
    | inr (id, named) ↦ elim (Bool-cases (id == k)) [
      | inl same ↦
          let e' : id ≡ k = (eq_iff id k).0 same in
          rw (named, same) (rw (← e') (find-update_candidates_same id e _ d.candidates))
      | inr other ↦
          let ne : id ≢ k = λ p. cc ((eq_iff id k).1 p) in
          rw (named, other) (find-update_candidates_other k id e _ d.candidates ne)
    ]
  ]

  apply_promotion_event-IsKept :
      (d : DashboardViewModel N) (e : PromotionEventEnvelope N)
      → IsKept d (apply_promotion_event js d e)
  unfolding apply_promotion_event
  apply_promotion_event-IsKept d e = elim (Option-cases (truthy e.candidate_id)) [
    | inl no_candidate ↦ rw no_candidate (record {
      evaluations = refl;
      policies = refl;
      schedules = refl;
      registry_agents = refl;
      live_connected = refl;
      demo_mode = refl;
    })
    | inr (id, named) ↦ rw named (record {
      evaluations = refl;
      policies = refl;
      schedules = refl;
      registry_agents = refl;
      live_connected = refl;
      demo_mode = refl;
    })
  ]

  -- After an event, the lookup of the candidate that it names gives the old entry updated, or, for
  -- a discovery and no other event, a created one where there was none; the lookup of every other
  -- id gives what it gave, and the evaluations, policies, schedules, registry versions and the two
  -- flags of the dashboard are as they were.
  pub apply_promotion_event_lem :
      (d : DashboardViewModel N) (e : PromotionEventEnvelope N)
      → ((k : String)
          → candidate_at k (apply_promotion_event js d e).candidates
            ≡ entry_after (truthy e.candidate_id) k e (candidate_at k d.candidates))
        × IsKept d (apply_promotion_event js d e)
  apply_promotion_event_lem d e = (candidate_at-apply d e, apply_promotion_event-IsKept d e)
