-- ===== src/Mutation/Laws.antt =====
-- apps/web/src/app/[[...route]]/actions.ts and packages/promotion-ui/src/http-data-source.ts: which
-- mutations are sent, what the request carries, and that the two ways agree.
use agent_promotion_control.Prelude.{
  ◌∷◌, [], String, Bool, ◌≡◌, ◌≢◌, ◌↔◌, refl, ap, ◌∙◌, inl, inr, true, false, not, some, arith,
  Option-cases, ◌==◌, eq_iff,
}
use agent_promotion_control.Js.{Value, num, str, Fields, field, ◌!◌, ◌^^◌}
use agent_promotion_control.View.{
  PromotionMutation, MutationResource, promotion, promotion_retry, evaluate, schedule, demo_cycle,
}
use agent_promotion_control.Fetch.{
  returns, require, require-eq, >>=-eq-returns, >>=-total, returns-injective, Request,
}
use agent_promotion_control.Mutation.Action.{
  action_path, body_field, actor_of, candidate_revision, rationale_of, mutation_body, body_for,
  mutation_headers, action_request,
}

not_empty : (s : String) → not (s == "") ≡ true → s ≢ ""
not_empty s h = ground (arith, eq_iff s "")

-- The mutations of a candidate, which are bound to the revision that the reviewer saw.
abbrev pub is_candidate_mutation : MutationResource → Bool
is_candidate_mutation promotion = true
is_candidate_mutation promotion_retry = true
is_candidate_mutation evaluate = true
is_candidate_mutation _ = false

module _ {N : Type 0} where
  -- What the server action demands of a mutation.
  pub record CanSend (m : PromotionMutation N) : Type 0 where
    pub keyed : m.idempotency_key ≢ ""
    pub revised :
        is_candidate_mutation m.resource ≡ true
        → (revision : N) × (m.expected_candidate_revision ≡ some revision)
    pub reasoned :
        m.resource ≡ promotion → (rationale : String) × (body_field m "rationale" ≡ str rationale)

  -- What a request of the server action carries.
  pub record IsGoverned (base : String) (m : PromotionMutation N) (r : Request N) : Type 0 where
    pub sent : Fields N
    pub body : r.body ≡ some sent
    pub url : r.url ≡ base ^^ action_path m.resource m.id
    pub method : r.method ≡ "POST"
    pub headers :
        r.headers
        ≡ ("Accept", "application/json")
          ∷ ("Content-Type", "application/json")
          ∷ ("Idempotency-Key", m.idempotency_key)
          ∷ []
    pub actor : sent ! "actor" ≡ str (actor_of m)
    pub revision :
        is_candidate_mutation m.resource ≡ true
        → (v : N) × (m.expected_candidate_revision ≡ some v)
          × (sent ! "expected_candidate_revision" ≡ num v)
    pub rationale :
        m.resource ≡ promotion
        → (s : String) × (body_field m "rationale" ≡ str s) × (sent ! "rationale" ≡ str s)

  abbrev HasBody : MutationResource → PromotionMutation N → Fields N → Type 0
  HasBody resource m sent =
      (sent ! "actor" ≡ str (actor_of m))
      × (is_candidate_mutation resource ≡ true
          → (v : N) × (m.expected_candidate_revision ≡ some v)
            × (sent ! "expected_candidate_revision" ≡ num v))
      × (resource ≡ promotion
          → (s : String) × (body_field m "rationale" ≡ str s) × (sent ! "rationale" ≡ str s))

  rationale_of-eq : (v : Value N) {s : String} → rationale_of v ≡ returns s → v ≡ str s
  rationale_of-eq (str t) h = cc (returns-injective h)
  rationale_of-eq _ h = cc

  candidate_revision-eq :
      (m : PromotionMutation N) {v : N}
      → candidate_revision m ≡ returns v
      → m.expected_candidate_revision ≡ some v
  unfolding candidate_revision
  candidate_revision-eq m {v} h = elim (Option-cases m.expected_candidate_revision) [
    | inl missing ↦ cc (rw missing at h)
    | inr (w, given) ↦ given ∙ ap some (returns-injective (rw given at h))
  ]

  -- The body that binds a revision.
  revision-HasBody :
      (resource : MutationResource) (m : PromotionMutation N) (rest : Fields N) {sent : Fields N}
      {v : N}
      → candidate_revision m ≡ returns v
      → field "actor" (str (actor_of m)) (field "expected_candidate_revision" (num v) rest) ≡ sent
      → (resource ≡ promotion
          → (s : String) × (body_field m "rationale" ≡ str s) × (rest ! "rationale" ≡ str s))
      → HasBody resource m sent
  revision-HasBody resource m rest {v = v} revised e reasoned =
      rw (← e) (refl, (λ _. (v, candidate_revision-eq m revised, refl)), reasoned)

  body_for-HasBody :
      (resource : MutationResource) (m : PromotionMutation N) (sent : Fields N)
      → body_for resource m ≡ returns sent
      → HasBody resource m sent
  unfolding body_for
  body_for-HasBody promotion m sent e =
      let (s, reasoned, e₁) = >>=-eq-returns (rationale_of (body_field m "rationale")) _ e in
      let (v, revised, e₂) = >>=-eq-returns (candidate_revision m) _ e₁ in
      revision-HasBody promotion m _ revised (returns-injective e₂)
        (λ _. (s, rationale_of-eq (body_field m "rationale") reasoned, refl))
  body_for-HasBody promotion_retry m sent e =
      let (v, revised, e₁) = >>=-eq-returns (candidate_revision m) _ e in
      revision-HasBody promotion_retry m _ revised (returns-injective e₁) (λ h. cc)
  body_for-HasBody evaluate m sent e =
      let (v, revised, e₁) = >>=-eq-returns (candidate_revision m) _ e in
      revision-HasBody evaluate m _ revised (returns-injective e₁) (λ h. cc)
  body_for-HasBody schedule m sent e = rw (← returns-injective e) (refl, (λ h. cc), (λ h. cc))
  body_for-HasBody demo_cycle m sent e = rw (← returns-injective e) (refl, (λ h. cc), (λ h. cc))

  action_request-inv :
      (base : String) (m : PromotionMutation N) (r : Request N)
      → action_request base m ≡ returns r
      → (m.idempotency_key ≢ "") × IsGoverned base m r
  unfolding action_request mutation_body mutation_headers
  action_request-inv base m r e =
      let (u, keyed, e₁) = >>=-eq-returns (require (not (m.idempotency_key == "")) _) _ e in
      let (sent, bodied, e₂) = >>=-eq-returns (body_for m.resource m) _ e₁ in
      let has = body_for-HasBody m.resource m sent bodied in
      (
        not_empty m.idempotency_key (require-eq _ _ u keyed),
        rw (← returns-injective e₂) (record {
          sent = sent;
          url = refl;
          body = refl;
          method = refl;
          headers = refl;
          actor = has.0;
          revision = has.1;
          rationale = has.2;
        }),
      )

  revision_given :
      (m : PromotionMutation N) {v : N}
      → m.expected_candidate_revision ≡ some v
      → candidate_revision m ≡ returns v
  unfolding candidate_revision
  revision_given m h = rw h refl

  body_for_total :
      (resource : MutationResource) (m : PromotionMutation N)
      → (is_candidate_mutation resource ≡ true
          → (revision : N) × (m.expected_candidate_revision ≡ some revision))
      → (resource ≡ promotion → (s : String) × (body_field m "rationale" ≡ str s))
      → (sent : Fields N) × (body_for resource m ≡ returns sent)
  unfolding body_for
  body_for_total promotion m revised reasoned =
      let (v, hv) = revised refl in
      let (s, hs) = reasoned refl in
      >>=-total (rationale_of (body_field m "rationale")) _ (ap rationale_of hs)
        (>>=-total (candidate_revision m) _ (revision_given m hv) (_, refl))
  body_for_total promotion_retry m revised reasoned =
      >>=-total (candidate_revision m) _ (revision_given m (revised refl).1) (_, refl)
  body_for_total evaluate m revised reasoned =
      >>=-total (candidate_revision m) _ (revision_given m (revised refl).1) (_, refl)
  body_for_total schedule m revised reasoned = (_, refl)
  body_for_total demo_cycle m revised reasoned = (_, refl)

  action_request_total :
      (base : String) (m : PromotionMutation N)
      → CanSend m
      → (r : Request N) × (action_request base m ≡ returns r)
  unfolding action_request mutation_body
  action_request_total base m c =
      let keyed : not (m.idempotency_key == "") ≡ true =
        ground (arith, c.keyed, eq_iff m.idempotency_key "") in
      >>=-total (require (not (m.idempotency_key == "")) _) _ {between = tt} (rw keyed refl) (
        >>=-total (body_for m.resource m) _ (body_for_total m.resource m c.revised c.reasoned).1
          (_, refl))

  -- The server action sends a request for exactly the mutations with an idempotency key, with the
  -- expected revision where a candidate is concerned, and with a rationale where it is promoted.
  -- Every such request is a POST to the resource's path with the key in its headers, and its body
  -- carries the actor, the expected revision and the rationale of the mutation.
  pub action_request_lem :
      (base : String) (m : PromotionMutation N)
      → (((r : Request N) × (action_request base m ≡ returns r)) ↔ CanSend m)
        × ((r : Request N) → action_request base m ≡ returns r → IsGoverned base m r)
  action_request_lem base m = (
    (
      λ sent.
          let (keyed, governed) = action_request-inv base m sent.0 sent.1 in
          record {
            keyed = keyed;
            revised = λ h. let (v, given, _) = governed.revision h in (v, given);
            reasoned = λ h. let (s, given, _) = governed.rationale h in (s, given);
          },
      action_request_total base m,
    ),
    λ r e. (action_request-inv base m r e).1,
  )
