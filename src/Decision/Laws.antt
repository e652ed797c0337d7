-- ===== src/Decision/Laws.antt =====
-- packages/promotion-ui/src/views/candidate-detail.tsx with
-- apps/web/src/app/[[...route]]/actions.ts: what the view submits is what the server action demands.
use agent_promotion_control.Prelude.{
  ℕ, ◌≤◌, ap, ◌∙◌, inl, inr, String, ◌≡◌, ◌≢◌, refl, true, false, none, some, arith, ltb,
  Bool-cases,
}
use agent_promotion_control.Js.{Runtime, trim, utf16_length}
use agent_promotion_control.View.{CandidateViewModel, LifecycleDecisionResult}
use agent_promotion_control.Fetch.{
  Outcome, returns, throws, >>=-eq-returns, ◌>>=◌, Request, Response,
}
use agent_promotion_control.Mutation.{action_request, run_promotion_mutation}
use agent_promotion_control.Mutation.Laws.{IsGoverned, action_request_lem}
use agent_promotion_control.Mutation.Agreement.{run_promotion_mutation_iff}
use agent_promotion_control.Decision.{
  decision_mutation, retry_mutation, submit_decision, or_failed, queued_result,
}

module _ {N : Type 0} where
  -- For a key that is not empty, the server action sends both the promotion and the retry that the
  -- view builds, governed as it demands: with the candidate's revision, and for the promotion with
  -- the trimmed rationale.
  decision_mutation-IsGoverned :
      (base uuid rationale : String) (c : CandidateViewModel N)
      → uuid ≢ ""
      → ((r : Request N) × (action_request base (decision_mutation uuid c rationale) ≡ returns r)
          × IsGoverned base (decision_mutation uuid c rationale) r)
        × ((r : Request N) × (action_request base (retry_mutation uuid c) ≡ returns r)
            × IsGoverned base (retry_mutation uuid c) r)
  unfolding decision_mutation retry_mutation
  decision_mutation-IsGoverned base uuid rationale c keyed =
      let promote = action_request_lem base (decision_mutation uuid c rationale) in
      let retry = action_request_lem base (retry_mutation uuid c) in
      let (r, sent) = promote.0.1 (record {
        keyed = keyed;
        revised = λ _. (c.revision, refl);
        reasoned = λ _. (trim rationale, refl);
      }) in
      let (s, resent) =
        retry.0.1
          (record { keyed = keyed; revised = λ _. (c.revision, refl); reasoned = λ h. cc }) in
      ((r, sent, promote.1 r sent), (s, resent, retry.1 s resent))

module _ {N : Type 0} (js : Runtime N) where
  or_failed-accepted :
      (o : Outcome (LifecycleDecisionResult N))
      → (or_failed o).accepted ≡ true
      → (result : LifecycleDecisionResult N) × (o ≡ returns result)
  or_failed-accepted (returns result) h = (result, refl)
  or_failed-accepted (throws message) h = cc h

  -- Where the view sends through the server action, it shows a promotion as accepted only if the
  -- trimmed rationale has 20 characters or more and the control plane answered with a success to a
  -- request that is governed as the server action demands.
  pub submit_decision-IsGoverned :
      (fetch : Request N → Response N) (base type_error uuid rationale : String)
      (c : CandidateViewModel N) (result : LifecycleDecisionResult N)
      → submit_decision none
          (some (run_promotion_mutation js fetch base))
          (queued_result js type_error)
          uuid
          c
          rationale
        ≡ some result
      → result.accepted ≡ true
      → (20 ≤ utf16_length (trim rationale))
        × ((r : Request N) × IsGoverned base (decision_mutation uuid c rationale) r
            × ((fetch r).ok ≡ true))
  unfolding submit_decision
  submit_decision-IsGoverned fetch base type_error uuid rationale c result h accepted =
      elim (Bool-cases (ltb (utf16_length (trim rationale)) 20)) [
        | inl short ↦ cc (rw short at h)
        | inr long ↦
            let m = decision_mutation uuid c rationale in
            let sent = run_promotion_mutation js fetch base m in
            let shown : or_failed (sent >>= queued_result js type_error) ≡ result =
              some-injective (rw long at h) in
            let (_, done) =
              or_failed-accepted _
                (ap (λ (x : LifecycleDecisionResult N). x.accepted) shown ∙ accepted) in
            let (v, value, _) = >>=-eq-returns sent (queued_result js type_error) done in
            let (r, requested, good, _) = (run_promotion_mutation_iff js fetch base m v).0 value in
            (long_enough _ long, (r, (action_request_lem base m).1 r requested, good))
      ]
    where
      some-injective : {A : Type 0} {a b : A} → some a ≡ some b → a ≡ b
      some-injective h = cc h

      long_enough : (n : ℕ) → ltb n 20 ≡ false → 20 ≤ n
      long_enough n h = ground arith
