-- ===== src/Views/Cycle.antt =====
-- packages/promotion-ui/src/views/automation.tsx: when the demo cycle runs.
use agent_promotion_control.Prelude.{
  ◌≡◌, ◌⊎◌, ◌↔◌, inl, inr, refl, String, Bool, true, false, Option, none, some,
}
use agent_promotion_control.Js.{Value}
use agent_promotion_control.View.{PromotionMutation, demo_cycle, LifecycleDecisionResult}
use agent_promotion_control.Fetch.{Outcome, returns, throws}
use agent_promotion_control.Views.{cycle_mutation, dispatched, run_cycle, can_run}

-- What is shown of an answer: the error, or that the cycle has been dispatched.
abbrev message_of : {A : Type 0} → Outcome A → String
message_of (throws message) = message
message_of (returns value) =
    "Dispatched the demo cycle. Durable job runs will appear through the event stream."

module _ {N : Type 0} where
  -- The mutation of a demo cycle: for no candidate, without a body, with a key of its own.
  abbrev requested : String → PromotionMutation N
  requested key = record {
    resource = demo_cycle;
    id = "autonomous-cycle";
    expected_candidate_revision = none;
    body = none;
    idempotency_key = key;
  }

  -- What the run shows is what the way to send that the embedding asks for answers to the request.
  abbrev IsAnswered :
      {A : Type 0} → Option (PromotionMutation N → Outcome A) → String → Option String → Type 0
  IsAnswered {A = A} way key run =
      (send : PromotionMutation N → Outcome A) × (way ≡ some send)
      × (run ≡ some (message_of (send (requested key))))

  abbrev pub IsSent :
      Bool
      → Option (PromotionMutation N → Outcome (LifecycleDecisionResult N))
      → Option (PromotionMutation N → Outcome (Value N))
      → String
      → String
      → Type 0
  IsSent embedded on_mutation mutate type_error uuid =
      let run = run_cycle true on_mutation mutate embedded type_error uuid in
      ((embedded ≡ true) × IsAnswered on_mutation uuid run)
      ⊎ ((embedded ≡ false) × IsAnswered mutate uuid run)

  unsent_embedded :
      (mutate : Option (PromotionMutation N → Outcome (Value N))) (type_error uuid : String)
      → IsSent true none mutate type_error uuid
      → false ≡ true
  unsent_embedded mutate type_error uuid (inl (h, (send, absent, shown))) = cc absent
  unsent_embedded mutate type_error uuid (inr (h, rest)) = cc h

  unsent :
      (on_mutation : Option (PromotionMutation N → Outcome (LifecycleDecisionResult N)))
      (type_error uuid : String)
      → IsSent false on_mutation none type_error uuid
      → false ≡ true
  unsent on_mutation type_error uuid (inl (h, rest)) = cc h
  unsent on_mutation type_error uuid (inr (h, (send, absent, shown))) = cc absent

  -- Outside the demo mode, nothing is sent; and the button is enabled exactly if the system is in the
  -- demo mode, nothing is running, and pressing it shows what is answered to the mutation of a demo
  -- cycle by the callback, in an embedding, or else by the data source: the error's message, or that
  -- the cycle has been dispatched.
  pub run_cycle_lem :
      (demo_mode running embedded : Bool)
      (on_mutation : Option (PromotionMutation N → Outcome (LifecycleDecisionResult N)))
      (mutate : Option (PromotionMutation N → Outcome (Value N))) (type_error uuid : String)
      → ((demo_mode ≡ true)
          ⊎ (run_cycle demo_mode on_mutation mutate embedded type_error uuid ≡ none))
        × ((can_run demo_mode running embedded on_mutation mutate ≡ true) ↔ (
            (demo_mode ≡ true)
            × (running ≡ false)
            × IsSent embedded on_mutation mutate type_error uuid))
  unfolding run_cycle can_run dispatched cycle_mutation
  run_cycle_lem false running embedded on_mutation mutate type_error uuid =
      (inr refl, ((λ h. cc h), (λ h. cc (h.0))))
  run_cycle_lem true true embedded on_mutation mutate type_error uuid =
      (inl refl, ((λ h. cc h), (λ h. cc (h.1))))
  run_cycle_lem true false true none mutate type_error uuid =
      (inl refl, ((λ h. cc h), (λ h. unsent_embedded mutate type_error uuid (h.2))))
  run_cycle_lem true false true (some send) none type_error uuid =
      (inl refl, ((λ h. (refl, refl, inl (refl, (send, refl, refl)))), (λ h. refl)))
  run_cycle_lem true false true (some send) (some source) type_error uuid =
      (inl refl, ((λ h. (refl, refl, inl (refl, (send, refl, refl)))), (λ h. refl)))
  run_cycle_lem true false false on_mutation none type_error uuid =
      (inl refl, ((λ h. cc h), (λ h. unsent on_mutation type_error uuid (h.2))))
  run_cycle_lem true false false none (some source) type_error uuid =
      (inl refl, ((λ h. (refl, refl, inr (refl, (source, refl, refl)))), (λ h. refl)))
  run_cycle_lem true false false (some send) (some source) type_error uuid =
      (inl refl, ((λ h. (refl, refl, inr (refl, (source, refl, refl)))), (λ h. refl)))
