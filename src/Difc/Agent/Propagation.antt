-- ===== src/Difc/Agent/Propagation.antt =====
-- Propagation (internal/difc/agent.go, `ApplyPropagation` and `AccumulateFromRead`) makes the
-- resource that was read readable with no further change.
use gh_aw_mcpg.Common.{
  ◌≡◌, ◌≢◌, refl, inl, inr, true, not, ◌&&◌, ◌||◌, some, none, Option, arith, Bool-cases,
}
use gh_aw_mcpg.Common.Text.{str_eq}
use gh_aw_mcpg.Difc.TagSet.{Tag, contains}
use gh_aw_mcpg.Difc.Label.{Label, wildcard_tag}
use gh_aw_mcpg.Difc.Label.Laws.{has_tag}
use gh_aw_mcpg.Difc.Flow.{secrecy, integrity, check_flow}
use gh_aw_mcpg.Difc.Flow.Laws.{FlowsTo, check_flow_secrecy, check_flow_integrity}
use gh_aw_mcpg.Difc.Mode.{allow}
use gh_aw_mcpg.Difc.Resource.{LabeledResource}
use gh_aw_mcpg.Difc.Evaluator.{
  Evaluator, EvaluationResult, requires_propagation, flow_of, evaluate_read,
}
use gh_aw_mcpg.Difc.Evaluator.Read.{Readable, evaluate_read-allow_iff}
use gh_aw_mcpg.Difc.Agent.{AgentLabels, apply_propagation, accumulate_from_read}
use gh_aw_mcpg.Difc.Agent.Laws.{
  trusts, contains-accumulate_secrecy, contains-accumulate_integrity, contains-propagation_secrecy,
  contains-propagation_integrity,
}

-- what a read that asks for propagation reports
reported :
    (e : Evaluator) (s i : Label) (r : LabeledResource)
    → requires_propagation (evaluate_read e s i r) ≡ true
    → ((evaluate_read e s i r).secrecy_to_add ≡ (check_flow (some r.secrecy) (flow_of secrecy s)).1)
      × ((evaluate_read e s i r).integrity_to_drop
          ≡ (check_flow (some r.integrity) (flow_of integrity i)).1)
unfolding evaluate_read
reported e s i r h = (ground arith, ground arith)

module _ (e : Evaluator) (a : AgentLabels) (r : LabeledResource)
    (asks : requires_propagation (evaluate_read e a.secrecy a.integrity r) ≡ true) where
  abbrev result : EvaluationResult
  result = evaluate_read e a.secrecy a.integrity r

  abbrev after : AgentLabels
  after = (apply_propagation a (some result)).0

  secrecy_after :
      (t : Tag)
      → contains after.secrecy t ≡ (
          (not (contains a.secrecy wildcard_tag)
            && (has_tag r.secrecy.label t && not (contains a.secrecy t)))
          || contains a.secrecy t)
  secrecy_after t = ground (
    arith,
    contains-propagation_secrecy a result t asks,
    reported e a.secrecy a.integrity r asks,
    check_flow_secrecy (some r.secrecy) (flow_of secrecy a.secrecy) t,
  )

  integrity_after :
      (t : Tag)
      → contains after.integrity t ≡ (
          not (
            not (has_tag r.integrity.label wildcard_tag)
            && (contains a.integrity t && not (has_tag r.integrity.label t)))
          && contains a.integrity t)
  integrity_after t = ground (
    arith,
    contains-propagation_integrity a result t asks,
    reported e a.secrecy a.integrity r asks,
    check_flow_integrity (some r.integrity) (flow_of integrity a.integrity) t,
  )

  cleared : FlowsTo r.secrecy.label (some after.secrecy)
  cleared = elim (Bool-cases (contains a.secrecy wildcard_tag)) [
    | inl w ↦ inl (ground (arith, secrecy_after wildcard_tag))
    | inr n ↦ inr (λ t h. ground (arith, secrecy_after t))
  ]

  trusted : FlowsTo (some after.integrity) r.integrity.label
  trusted = elim (Bool-cases (has_tag r.integrity.label wildcard_tag)) [
    | inl w ↦ inl w
    | inr n ↦ inr (λ t h. ground (arith, integrity_after t))
  ]

  after_Readable : Readable after.secrecy after.integrity r
  after_Readable = (cleared, trusted)

-- Once the label changes that a read asked for are applied to the agent, every evaluator allows the
-- same read with no condition.
pub apply_propagation-evaluate_read :
    (e e' : Evaluator) (a : AgentLabels) (r : LabeledResource)
    → requires_propagation (evaluate_read e a.secrecy a.integrity r) ≡ true
    → let a' = (apply_propagation a (some (evaluate_read e a.secrecy a.integrity r))).0 in
      (evaluate_read e' a'.secrecy a'.integrity r).decision ≡ allow
apply_propagation-evaluate_read e e' a r asks =
    let a' = (apply_propagation a (some (evaluate_read e a.secrecy a.integrity r))).0 in
    (evaluate_read-allow_iff e' a'.secrecy a'.integrity r).1 (after_Readable e a r asks)

has_tag_of_trusts : (o : Option Label) (t : Tag) → o ≢ none → trusts o t ≡ true → has_tag o t ≡ true
has_tag_of_trusts none t h k = absurd (h refl)
has_tag_of_trusts (some l) t h k = k

-- Once a resource whose integrity label is not nil is accumulated into the agent, every evaluator
-- allows its read with no condition.
pub accumulate_from_read-evaluate_read :
    (e : Evaluator) (a : AgentLabels) (r : LabeledResource)
    → r.integrity.label ≢ none
    → let a' = accumulate_from_read a r in
      (evaluate_read e a'.secrecy a'.integrity r).decision ≡ allow
accumulate_from_read-evaluate_read e a r set =
    let a' = accumulate_from_read a r in
    (evaluate_read-allow_iff e a'.secrecy a'.integrity r).1 (
      inr (λ t h. ground (arith, contains-accumulate_secrecy a r t)),
      inr (λ t h.
          has_tag_of_trusts r.integrity.label t set
            (ground (arith, contains-accumulate_integrity a r t))),
    )
