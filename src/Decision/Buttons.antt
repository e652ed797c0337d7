-- ===== src/Decision/Buttons.antt =====
-- packages/promotion-ui/src/views/candidate-detail.tsx: what the button of the decision panel stands
-- for.
use agent_promotion_control.Prelude.{
  ap, get_or, ◌≡◌, ◌⊎◌, inl, inr, refl, arith, Bool, ◌&&◌, ◌||◌, true, false, not, Option, none,
  some, is_some, String, ◌==◌, eq_iff, if-either, if◌then◌else◌,
}
use agent_promotion_control.Js.{Value, str, field, end}
use agent_promotion_control.View.{
  promotion_retry, CandidateViewModel, PromotionMutation, LifecycleDecisionResult,
}
use agent_promotion_control.Fetch.{Outcome, returns, throws, ◌>>=◌}
use agent_promotion_control.Decision.{
  can_promote, approvals_satisfied, has_blocker, retry_registry, retry_mutation, retry_end,
  retry_source, RetryEnd, result_of,
}
use agent_promotion_control.Decision.Panel.{
  Transports, PanelButton, promote, retry, unavailable, panel_button,
}

module _ {N : Type 0} where
  -- The request for the candidate's publication, with a key of its own.
  abbrev asked : String → CandidateViewModel N → PromotionMutation N
  asked key c = record {
    resource = promotion_retry;
    id = get_or c.registry_operation_id c.id;
    expected_candidate_revision = some c.revision;
    body = some (field "actor" (str "standalone-reviewer") end);
    idempotency_key = key;
  }

  -- What an answer leaves: a result, with the dialog closed, or the error's message, with the dialog
  -- open.
  abbrev left_by : {A : Type 0} → (A → LifecycleDecisionResult N) → Outcome A → RetryEnd N
  left_by shown (returns value) = record { result = shown value; dialog_open = false }
  left_by shown (throws message) = record {
    result = record {
      accepted = false;
      operation_id = none;
      candidate_revision = none;
      message = message;
    };
    dialog_open = true;
  }

  abbrev publication_queued : LifecycleDecisionResult N
  publication_queued = record {
    accepted = true;
    operation_id = none;
    candidate_revision = none;
    message = "Queued registry publication with the stable publication token.";
  }

  -- `retryRegistry` then leaves what the callback answers, or what the data source does.
  abbrev pub IsSent : Transports N → String → String → CandidateViewModel N → Type 0
  IsSent ts type_error uuid c =
      let call = retry_registry ts.on_mutation ts.mutate ts.embedded type_error uuid c in
      ((ts.embedded ≡ true)
        × ((decide : PromotionMutation N → Outcome (LifecycleDecisionResult N)) × (ts.on_mutation
              ≡ some decide)
            × (call ≡ some (left_by (λ result. result) (decide (asked uuid c))))))
      ⊎ ((ts.embedded ≡ false)
          × ((send : PromotionMutation N → Outcome (Value N)) × (ts.mutate ≡ some send)
              × (call ≡ some (left_by (λ _. publication_queued) (send (asked uuid c))))))

  decided : (o : Outcome (LifecycleDecisionResult N)) → retry_end o ≡ left_by (λ result. result) o
  unfolding retry_end
  decided (returns result) = refl
  decided (throws message) = refl

  queued :
      (send : PromotionMutation N → Outcome (Value N)) (type_error : String)
      (mutation : PromotionMutation N)
      → retry_end (retry_source (some send) type_error mutation)
        ≡ left_by (λ _. publication_queued) (send mutation)
  unfolding retry_end retry_source
  queued send type_error mutation = after (send mutation)
    where
      after :
          (o : Outcome (Value N))
          → retry_end (
              o >>= λ _.
              returns
                (result_of true "Queued registry publication with the stable publication token."))
            ≡ left_by (λ _. publication_queued) o
      after (returns value) = refl
      after (throws message) = refl

  sends :
      (on_mutation : Option (PromotionMutation N → Outcome (LifecycleDecisionResult N)))
      (mutate : Option (PromotionMutation N → Outcome (Value N))) (embedded : Bool)
      (ts : Transports N) (type_error uuid : String) (c : CandidateViewModel N)
      → (if embedded then not (is_some on_mutation) else not (is_some mutate)) ≡ false
      → IsSent
          (record ts { on_mutation = on_mutation; mutate = mutate; embedded = embedded })
          type_error
          uuid
          c
  unfolding retry_registry retry_mutation
  sends (some decide) mutate true ts type_error uuid c h =
      inl (refl, (decide, refl, ap some (decided (decide (asked uuid c)))))
  sends none mutate true ts type_error uuid c h = cc
  sends none (some send) false ts type_error uuid c h =
      inr (refl, (send, refl, ap some (queued send type_error (asked uuid c))))
  sends (some decide) (some send) false ts type_error uuid c h =
      inr (refl, (send, refl, ap some (queued send type_error (asked uuid c))))
  sends on_mutation none false ts type_error uuid c h = cc

  -- What each button says of the candidate and the transports.
  abbrev pub IsJustified : Transports N → Bool → CandidateViewModel N → PanelButton → Type 0
  IsJustified ts submitting c promote =
      (c.promotion_eligible ≡ true)
      × (approvals_satisfied c ≡ true)
      × (has_blocker c ≡ false)
      × (c.activation_state ≡ "NOT_REQUESTED")
      × ((ts.embedded && not (is_some ts.on_decision)) ≡ false)
  IsJustified ts submitting c (retry true label) = c.activation_state ≡ "FAILED"
  IsJustified ts submitting c (retry false label) =
      (c.activation_state ≡ "FAILED")
      × (submitting ≡ false)
      × ((type_error uuid : String) → IsSent ts type_error uuid c)
  IsJustified ts submitting c (unavailable label) = (c.activation_state == "FAILED") ≡ false

  retry-IsJustified :
      (ts : Transports N) (submitting : Bool) (c : CandidateViewModel N) (disabled : Bool)
      (label : String)
      → (submitting
          || (if ts.embedded then not (is_some ts.on_mutation) else not (is_some ts.mutate)))
        ≡ disabled
      → c.activation_state ≡ "FAILED"
      → IsJustified ts submitting c (retry disabled label)
  retry-IsJustified ts submitting c true label h failed = failed
  retry-IsJustified ts false c false label h failed = (
    failed,
    refl,
    λ type_error uuid. sends ts.on_mutation ts.mutate ts.embedded ts type_error uuid c h,
  )
  retry-IsJustified ts true c false label h failed = cc

  can_promote_holds :
      (c : CandidateViewModel N)
      → can_promote c ≡ true
      → (c.promotion_eligible ≡ true)
        × (approvals_satisfied c ≡ true)
        × (has_blocker c ≡ false)
        × (c.activation_state ≡ "NOT_REQUESTED")
  unfolding can_promote approvals_satisfied has_blocker
  can_promote_holds c h =
      let (eligible, approved, clear, idle) = all_four c.promotion_eligible _ _ _ h in
      (eligible, approved, clear, (eq_iff c.activation_state "NOT_REQUESTED").0 idle)
    where
      all_four :
          (a b x d : Bool)
          → (a && b && not x && d) ≡ true
          → (a ≡ true) × (b ≡ true) × (x ≡ false) × (d ≡ true)
      all_four a b x d h = ground arith

  -- The panel offers a promotion only for a candidate that is eligible, approved, without a blocker
  -- and with no activation requested, and in the embedding only with a callback for decisions; it
  -- offers a retry only for a failed activation, enabled only while nothing is submitted and where
  -- `retryRegistry` sends its request, in the embedding through the callback and elsewhere through
  -- the data source; and it offers nothing only for an activation that has not failed.
  pub panel_button-IsJustified :
      (ts : Transports N) (submitting : Bool) (c : CandidateViewModel N)
      → IsJustified ts submitting c (panel_button ts submitting c)
  unfolding panel_button
  panel_button-IsJustified ts submitting c =
      if-either (IsJustified ts submitting c)
        (can_promote c && (not ts.embedded || is_some ts.on_decision))
        (λ offered.
          let (can, given) = both (can_promote c) _ offered in
          let (eligible, approved, clear, idle) = can_promote_holds c can in
          (eligible, approved, clear, idle, given_callback ts.embedded _ given))
        (λ _.
          if-either (IsJustified ts submitting c) (c.activation_state == "FAILED")
            (λ failed.
              retry-IsJustified ts submitting c _ _ refl
                ((eq_iff c.activation_state "FAILED").0 failed))
            (λ other.
              if-either (IsJustified ts submitting c) (c.activation_state == "PENDING") (λ _. other)
                (λ _.
                  if-either (IsJustified ts submitting c)
                    (ts.embedded && not (is_some ts.on_decision)) (λ _. other) (λ _. other))))
    where
      both : (a b : Bool) → (a && b) ≡ true → (a ≡ true) × (b ≡ true)
      both a b h = ground arith

      given_callback : (a b : Bool) → (not a || b) ≡ true → (a && not b) ≡ false
      given_callback a b h = ground arith
