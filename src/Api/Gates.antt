-- ===== src/Api/Gates.antt =====
-- apps/web/src/lib/api.ts, about `mapGate` and `normalizeCandidate`: a gate counts as passed only if
-- the control plane says so, and the counts of hard gates follow from the gates.
use agent_promotion_control.Prelude.{
  ℕ, ◌≤◌, String, ◌≡◌, ◌≢◌, ◌↔◌, ◌⊎◌, refl, sym, inl, inr, true, false, some, none, List, [], ◌∷◌,
  length, keep, All, arith, leb, Bool-cases, length-keep-le, eq_iff,
}
use agent_promotion_control.Js.{Value, str, ◌!◌, ◌⁇◌, is_nullish, Runtime}
use agent_promotion_control.View.{
  CandidateViewModel, GateVerdict, GateViewModel, passed, failed, not_applicable, remaining,
  TimelineEventViewModel,
}
use agent_promotion_control.Api.{
  to_record, string, verdict_of, map_gate, is_hard, is_passed, hard_gates_passed,
  hard_gates_required, normalize_candidate,
}

passed-eq : (v : GateVerdict) → elim v [ passed ↦ true | _ ↦ false ] ≡ true → v ≡ passed
passed-eq passed h = refl
passed-eq failed h = cc h
passed-eq not_applicable h = cc h
passed-eq remaining h = cc h

verdict_of-passed : (s : String) → (verdict_of s ≡ passed) ↔ (s ≡ "PASSED")
unfolding verdict_of
verdict_of-passed s = ((λ h. ground (arith, eq_iff s "PASSED", h)), (λ h. rw h refl))

empty-eq : {A : Type 0} (xs : List A) → leb 1 (length xs) ≡ false → xs ≡ []
empty-eq [] h = refl
empty-eq (x ∷ xs) h = ground arith

module _ {N : Type 0} where
  string-eq : (v : Value N) (s d : String) → s ≢ d → (string v d ≡ s) ↔ (v ≡ str s)
  unfolding string
  string-eq (str t) s d ne = ((λ h. cc), (λ h. cc))
  string-eq _ s d ne = ((λ h. ground (arith, ne (sym h))), (λ h. cc h))

  is_passed-eq : (g : GateViewModel N) → is_passed g ≡ true → g.verdict ≡ passed
  is_passed-eq g h = passed-eq g.verdict h

  All-length :
      (gs : List (GateViewModel N))
      → (length (keep is_passed gs) ≡ length gs) ↔ All (λ gate. gate.verdict ≡ passed) gs
  All-length [] = ((λ h. tt), (λ h. refl))
  All-length (g ∷ gs) = elim (Bool-cases (is_passed g)) [
    | inl good ↦ rw good (
      (λ h. (is_passed-eq g good, (All-length gs).0 (omega (arith, h)))),
      (λ h. omega (arith, (All-length gs).1 h.1)),
    )
    | inr bad ↦
        rw bad ((λ h. ground (arith, length-keep-le is_passed gs)), (λ h. cc (rw h.0 at bad)))
  ]

module _ {N : Type 0} (js : Runtime N) where
  -- A gate of the view is passed exactly if the control plane's verdict for it (`verdict`, or
  -- `gate_verdict` where that is missing) is the text PASSED; anything else, and a missing verdict,
  -- is not a pass.
  map_gate-passed :
      (uuid : String) (value : Value N)
      → ((map_gate js uuid value).verdict ≡ passed)
        ↔ ((to_record value ! "verdict" ⁇ to_record value ! "gate_verdict") ≡ str "PASSED")
  unfolding map_gate
  map_gate-passed uuid value =
      let given = to_record value ! "verdict" ⁇ to_record value ! "gate_verdict" in
      let reads =
        string-eq given "PASSED" "REMAINING" (ground (arith, eq_iff "PASSED" "REMAINING")) in
      let names = verdict_of-passed (string given "REMAINING") in
      ((λ h. reads.0 (names.0 h)), (λ h. names.1 (reads.1 h)))

  -- The two counts of a candidate's hard gates, as the gates give them.
  abbrev pub IsCounted : CandidateViewModel N → Type 0
  IsCounted c =
      ((keep is_hard c.gates ≡ []) × (c.hard_gates_passed ≡ none) × (c.hard_gates_required ≡ none))
      ⊎ ((p : ℕ) × (r : ℕ) × (c.hard_gates_passed ≡ some (js.of_nat p))
          × (c.hard_gates_required ≡ some (js.of_nat r))
          × (p ≤ r)
          × ((p ≡ r) ↔ All (λ gate. gate.verdict ≡ passed) (keep is_hard c.gates)))

  counted :
      (gs : List (GateViewModel N)) (v w : Value N)
      → is_nullish v ≡ true
      → is_nullish w ≡ true
      → ((keep is_hard gs ≡ [])
          × (hard_gates_passed js v gs ≡ none)
          × (hard_gates_required js w gs ≡ none))
        ⊎ ((p : ℕ) × (r : ℕ) × (hard_gates_passed js v gs ≡ some (js.of_nat p))
            × (hard_gates_required js w gs ≡ some (js.of_nat r))
            × (p ≤ r)
            × ((p ≡ r) ↔ All (λ gate. gate.verdict ≡ passed) (keep is_hard gs)))
  unfolding hard_gates_passed hard_gates_required
  counted gs v w hv hw = elim (Bool-cases (leb 1 (length (keep is_hard gs)))) [
    | inl some_hard ↦ inr (
      length (keep is_passed (keep is_hard gs)),
      length (keep is_hard gs),
      rw (hv, some_hard) refl,
      rw (hw, some_hard) refl,
      length-keep-le is_passed (keep is_hard gs),
      All-length (keep is_hard gs),
    )
    | inr no_hard ↦
        inl (empty-eq (keep is_hard gs) no_hard, rw (hv, no_hard) refl, rw (hw, no_hard) refl)
  ]

  -- Where the control plane reports neither count, a candidate without hard gates has no counts, and
  -- any other has as many passed as required hard gates at most, and as many exactly if each of its
  -- hard gates is passed.
  pub normalize_candidate-IsCounted :
      (uuids : ℕ → String) (value : Value N) (linked : List (TimelineEventViewModel N))
      → is_nullish (to_record value ! "hard_gates_passed") ≡ true
      → is_nullish (to_record value ! "hard_gates_required") ≡ true
      → IsCounted (normalize_candidate js uuids value linked)
  unfolding normalize_candidate
  normalize_candidate-IsCounted uuids value linked hp hr = counted _ _ _ hp hr
