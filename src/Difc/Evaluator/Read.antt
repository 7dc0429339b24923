-- ===== src/Difc/Evaluator/Read.antt =====
-- When a read is allowed (internal/difc/evaluator.go), and what a denial reports.
use gh_aw_mcpg.Common.{◌≡◌, ◌↔◌, ◌≢◌, ◌⊎◌, true, some, arith}
use gh_aw_mcpg.Common.Text.{str_eq}
use gh_aw_mcpg.Difc.Label.{Label}
use gh_aw_mcpg.Difc.Flow.{secrecy, integrity, check_flow, can_flow_to}
use gh_aw_mcpg.Difc.Flow.Laws.{FlowsTo, can_flow_to_iff}
use gh_aw_mcpg.Difc.Mode.{propagate, allow, deny, allow_with_propagate}
use gh_aw_mcpg.Difc.Resource.{LabeledResource}
use gh_aw_mcpg.Difc.Evaluator.{Evaluator, flow_of, evaluate_read}

-- The agent is cleared for the resource's secrets and may trust the resource.
abbrev pub Readable : Label → Label → LabeledResource → Type 0
Readable s i r = FlowsTo r.secrecy.label (some s) × FlowsTo (some i) r.integrity.label

-- The two checks of a read, before the mode is looked at.
checks_allow :
    (e : Evaluator) (s i : Label) (r : LabeledResource)
    → (evaluate_read e s i r).decision ≡ allow
    → (can_flow_to (some r.secrecy) (flow_of secrecy s) ≡ true)
      × (can_flow_to (some r.integrity) (flow_of integrity i) ≡ true)
unfolding evaluate_read can_flow_to check_flow
checks_allow e s i r h = ground arith

allow_checks :
    (e : Evaluator) (s i : Label) (r : LabeledResource)
    → can_flow_to (some r.secrecy) (flow_of secrecy s) ≡ true
    → can_flow_to (some r.integrity) (flow_of integrity i) ≡ true
    → (evaluate_read e s i r).decision ≡ allow
unfolding evaluate_read can_flow_to check_flow
allow_checks e s i r h k = ground arith

-- In every mode, a read is allowed with no condition exactly if the agent is cleared for the
-- resource's secrecy tags and the resource has the integrity tags that the agent requires.
pub evaluate_read-allow_iff :
    (e : Evaluator) (s i : Label) (r : LabeledResource)
    → ((evaluate_read e s i r).decision ≡ allow) ↔ Readable s i r
evaluate_read-allow_iff e s i r = (
  λ h.
      let (a, b) = checks_allow e s i r h in
      (
        (can_flow_to_iff secrecy (some r.secrecy) (flow_of secrecy s)).0 a,
        (can_flow_to_iff integrity (some r.integrity) (flow_of integrity i)).0 b,
      ),
  λ h.
      allow_checks e s i r ((can_flow_to_iff secrecy (some r.secrecy) (flow_of secrecy s)).1 h.0)
        ((can_flow_to_iff integrity (some r.integrity) (flow_of integrity i)).1 h.1),
)

-- A read that is not plainly allowed is allowed with propagation in propagate mode, and denied in
-- the two others.
pub evaluate_read-else :
    (e : Evaluator) (s i : Label) (r : LabeledResource)
    → (evaluate_read e s i r).decision ≢ allow
    → ((e.mode ≡ propagate) × ((evaluate_read e s i r).decision ≡ allow_with_propagate))
      ⊎ ((e.mode ≢ propagate) × ((evaluate_read e s i r).decision ≡ deny))
unfolding evaluate_read
evaluate_read-else e s i r h = ground arith
