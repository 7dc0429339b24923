-- ===== src/Difc/Evaluator/Write.antt =====
-- When a write and a read-write are allowed (internal/difc/evaluator.go).
use gh_aw_mcpg.Common.{◌≡◌, ◌↔◌, ◌≢◌, ◌⊎◌, inl, inr, true, some, arith}
use gh_aw_mcpg.Difc.Label.{Label}
use gh_aw_mcpg.Difc.Flow.{secrecy, integrity, check_flow, can_flow_to}
use gh_aw_mcpg.Difc.Flow.Laws.{FlowsTo, can_flow_to_iff}
use gh_aw_mcpg.Difc.Mode.{read_write, propagate, allow, allow_with_propagate}
use gh_aw_mcpg.Difc.Resource.{LabeledResource}
use gh_aw_mcpg.Difc.Evaluator.{
  Evaluator, is_allowed, flow_of, evaluate_read, evaluate_write, evaluate,
}
use gh_aw_mcpg.Difc.Evaluator.Read.{Readable, evaluate_read-allow_iff}

-- The resource may hold the agent's secrets, and the agent is trusted enough to change it.
abbrev pub Writable : Label → Label → LabeledResource → Type 0
Writable s i r = FlowsTo (some s) r.secrecy.label × FlowsTo r.integrity.label (some i)

checks_allow :
    (e : Evaluator) (s i : Label) (r : LabeledResource)
    → is_allowed (evaluate_write e s i r) ≡ true
    → (can_flow_to (flow_of secrecy s) (some r.secrecy) ≡ true)
      × (can_flow_to (flow_of integrity i) (some r.integrity) ≡ true)
unfolding evaluate_write can_flow_to check_flow
checks_allow e s i r h = ground arith

allow_checks :
    (e : Evaluator) (s i : Label) (r : LabeledResource)
    → can_flow_to (flow_of secrecy s) (some r.secrecy) ≡ true
    → can_flow_to (flow_of integrity i) (some r.integrity) ≡ true
    → is_allowed (evaluate_write e s i r) ≡ true
unfolding evaluate_write can_flow_to check_flow
allow_checks e s i r h k = ground arith

-- In every mode, a write is allowed exactly if the resource's secrecy takes in the agent's and the
-- agent has the integrity that the resource requires.
pub evaluate_write-allowed_iff :
    (e : Evaluator) (s i : Label) (r : LabeledResource)
    → (is_allowed (evaluate_write e s i r) ≡ true) ↔ Writable s i r
evaluate_write-allowed_iff e s i r = (
  λ h.
      let (a, b) = checks_allow e s i r h in
      (
        (can_flow_to_iff secrecy (flow_of secrecy s) (some r.secrecy)).0 a,
        (can_flow_to_iff integrity (flow_of integrity i) (some r.integrity)).0 b,
      ),
  λ h.
      allow_checks e s i r ((can_flow_to_iff secrecy (flow_of secrecy s) (some r.secrecy)).1 h.0)
        ((can_flow_to_iff integrity (flow_of integrity i) (some r.integrity)).1 h.1),
)

-- A write never asks for propagation.
pub evaluate_write-decision :
    (e : Evaluator) (s i : Label) (r : LabeledResource)
    → (evaluate_write e s i r).decision ≢ allow_with_propagate
unfolding evaluate_write
evaluate_write-decision e s i r h = ground arith

allowed_parts :
    (e : Evaluator) (s i : Label) (r : LabeledResource)
    → is_allowed (evaluate e s i r read_write) ≡ true
    → (is_allowed (evaluate_read e s i r) ≡ true) × (is_allowed (evaluate_write e s i r) ≡ true)
unfolding evaluate
allowed_parts e s i r h = ground arith

parts_allowed :
    (e : Evaluator) (s i : Label) (r : LabeledResource)
    → is_allowed (evaluate_read e s i r) ≡ true
    → is_allowed (evaluate_write e s i r) ≡ true
    → is_allowed (evaluate e s i r read_write) ≡ true
unfolding evaluate
parts_allowed e s i r h k = ground arith

-- what a read needs to be allowed at all
abbrev pub ReadPasses : Evaluator → Label → Label → LabeledResource → Type 0
ReadPasses e s i r = (e.mode ≡ propagate) ⊎ Readable s i r

propagate_passes :
    (e : Evaluator) (s i : Label) (r : LabeledResource)
    → e.mode ≡ propagate
    → is_allowed (evaluate_read e s i r) ≡ true
unfolding evaluate_read
propagate_passes e s i r h = ground arith

passes_split :
    (e : Evaluator) (s i : Label) (r : LabeledResource)
    → is_allowed (evaluate_read e s i r) ≡ true
    → (e.mode ≡ propagate) ⊎ ((evaluate_read e s i r).decision ≡ allow)
unfolding evaluate_read
passes_split e s i r h = ground arith

-- A read is allowed, with propagation or without, exactly if the mode is propagate or the agent is
-- cleared for the resource and may trust it.
pub evaluate_read-allowed_iff :
    (e : Evaluator) (s i : Label) (r : LabeledResource)
    → (is_allowed (evaluate_read e s i r) ≡ true) ↔ ReadPasses e s i r
evaluate_read-allowed_iff e s i r = (λ h. there (passes_split e s i r h), back)
  where
    there : (e.mode ≡ propagate) ⊎ ((evaluate_read e s i r).decision ≡ allow) → ReadPasses e s i r
    there (inl m) = inl m
    there (inr a) = inr ((evaluate_read-allow_iff e s i r).0 a)

    back : ReadPasses e s i r → is_allowed (evaluate_read e s i r) ≡ true
    back (inl m) = propagate_passes e s i r m
    back (inr x) = rw ((evaluate_read-allow_iff e s i r).1 x)

-- A read-write is allowed exactly if the agent may write the resource and may read it, where
-- propagate mode lets every read pass.
pub evaluate-read_write_iff :
    (e : Evaluator) (s i : Label) (r : LabeledResource)
    → (is_allowed (evaluate e s i r read_write) ≡ true) ↔ (ReadPasses e s i r × Writable s i r)
evaluate-read_write_iff e s i r = (
  λ h.
      let (a, b) = allowed_parts e s i r h in
      ((evaluate_read-allowed_iff e s i r).0 a, (evaluate_write-allowed_iff e s i r).0 b),
  λ h.
      parts_allowed e s i r ((evaluate_read-allowed_iff e s i r).1 h.0)
        ((evaluate_write-allowed_iff e s i r).1 h.1),
)

-- A read-write never reports that labels have to change, not even in propagate mode for an agent
-- that a plain read would taint.
pub evaluate-read_write_silent :
    (e : Evaluator) (s i : Label) (r : LabeledResource)
    → (evaluate e s i r read_write).decision ≢ allow_with_propagate
unfolding evaluate
evaluate-read_write_silent e s i r h = ground arith
