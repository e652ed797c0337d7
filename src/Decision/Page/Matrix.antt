-- ===== src/Decision/Page/Matrix.antt =====
-- packages/promotion-ui/src/views/candidate-detail.tsx: the gate and evidence matrix, and the
-- breakdown of the readiness below it.
use agent_promotion_control.Prelude.{String, true, none, some, [], ◌∷◌}
use agent_promotion_control.Js.{Runtime, ◌^^◌}
use agent_promotion_control.View.{
  CandidateViewModel, GateViewModel, GateKind, hard_gate, weighted, GateVerdict, passed, failed,
  remaining, not_applicable,
}
use agent_promotion_control.Format.{humanize, format_percent, format_score, gate_tone}
use agent_promotion_control.Views.{format_measurement}
use agent_promotion_control.Markup.{named, Node, text, el, styled, plain, line, each, unless_empty}
use agent_promotion_control.Components.{Rendering, status_mark, section_heading, empty_state}
use agent_promotion_control.Decision.Panel.{
  weight_cell, normalized_cell, coverage_cell, last_run_cell,
}
use agent_promotion_control.Decision.Page.{Press}

-- The verdict as the code spells it.
unfoldable pub verdict_name : GateVerdict → String
verdict_name passed = "PASSED"
verdict_name failed = "FAILED"
verdict_name remaining = "REMAINING"
verdict_name not_applicable = "NOT_APPLICABLE"

unfoldable pub kind_name : GateKind → String
kind_name hard_gate = "Hard gate"
kind_name weighted = "Weighted"

abbrev pub head_cell : {E : Type 0} → String → Node E
head_cell label = el "th" (named "scope" "col" ∷ []) (text label ∷ [])

module _ {N : Type 0} (js : Runtime N) (rt : Rendering N) where
  unfoldable pub gate_row : GateViewModel N → Node Press
  unfolding verdict_name kind_name
  gate_row gate = plain "tr" (
      el "th" (named "scope" "row" ∷ named "data-label" "Criterion" ∷ []) (
        line "strong" gate.name
        ∷ line "span" (humanize js gate.category ^^ " · " ^^ gate.meaning)
        ∷ [])
      ∷ el "td" (named "data-label" "Contract" ∷ [])
          (line "strong" (kind_name gate.kind) ∷ line "span" (weight_cell js rt.times gate) ∷ [])
      ∷ el "td" (named "data-label" "Verdict" ∷ [])
          (status_mark (gate_tone gate.verdict) true (humanize js (verdict_name gate.verdict)) ∷ [])
      ∷ el "td" (named "data-label" "Measurement" ∷ []) (
          line "strong" (format_measurement js gate)
          ∷ line "span" (normalized_cell js rt.times gate)
          ∷ [])
      ∷ el "td" (named "data-label" "Coverage" ∷ []) (
          line "span" (coverage_cell js rt.times gate).0
          ∷ line "span" (coverage_cell js rt.times gate).1
          ∷ [])
      ∷ el "td" (named "data-label" "Evaluator" ∷ []) (
          line "strong" gate.evaluator
          ∷ line "span" (last_run_cell js rt.times rt.calendar gate)
          ∷ [])
      ∷ [])

  unfoldable pub gate_table : CandidateViewModel N → Node Press
  unfolding gate_row
  gate_table c = styled "div" "pcp-table-wrap" (
      styled "table" "pcp-table" (
        plain "thead" (
          plain "tr" (
            head_cell "Criterion"
            ∷ head_cell "Contract"
            ∷ head_cell "Verdict"
            ∷ head_cell "Measurement"
            ∷ head_cell "Coverage"
            ∷ head_cell "Evaluator"
            ∷ [])
          ∷ [])
        ∷ plain "tbody" (each c.gates gate_row ∷ [])
        ∷ [])
      ∷ [])

  -- A share, times 100, in percent.
  abbrev percentage : N → String
  percentage share = format_percent js (rt.times share (js.of_nat 100))

  abbrev reading : String → String → Node Press
  reading label value = plain "div" (line "span" label ∷ line "strong" value ∷ [])

  unfoldable pub readiness_breakdown : CandidateViewModel N → Node Press
  readiness_breakdown c = styled "div" "pcp-readiness-breakdown" (
      reading "Hard gates" (percentage c.evaluation.hard_gate_readiness)
      ∷ reading "Weighted score" (format_score js c.evaluation.weighted_score)
      ∷ reading "Samples" (percentage c.evaluation.sample_completeness)
      ∷ reading "Evaluations" (percentage c.evaluation.evaluation_completeness)
      ∷ [])

  unfoldable pub matrix : CandidateViewModel N → Node Press
  unfolding gate_table readiness_breakdown
  matrix c = styled "section" "pcp-section" (
      section_heading "02" "Gate and evidence matrix"
        (some "Incomplete weighted criteria contribute zero. Failed hard gates always block.") none
      ∷ unless_empty c.gates
          (empty_state "The policy requires no criteria. Evaluation completeness is 100%.")
          (gate_table c)
      ∷ readiness_breakdown c
      ∷ [])
