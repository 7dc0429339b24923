-- ===== src/Difc/Agent/Taint.antt =====
-- No leak and no laundering: what an agent has read binds its later writes, as long as its integrity is
-- not raised again (internal/difc/agent.go and evaluator.go).
use gh_aw_mcpg.Common.{
  All, Bool, Bool-cases, List, [], arith, false, has_key, inl, inr, refl, some, true, ◌==◌, ◌∷◌,
  ◌≡◌,
}
use gh_aw_mcpg.Common.Text.{str_beq_iff, str_eq}
use gh_aw_mcpg.Difc.Agent.{
  AgentLabels, accumulate_from_read, add_integrity_tag, add_integrity_tags, add_secrecy_tag,
  add_secrecy_tags, apply_propagation, drop_integrity_tag, drop_integrity_tags,
}
use gh_aw_mcpg.Difc.Agent.Laws.{
  contains-accumulate_integrity, contains-accumulate_secrecy, contains-propagation_integrity,
  contains-propagation_secrecy,
}
use gh_aw_mcpg.Difc.Evaluator.{
  EvaluationResult, Evaluator, evaluate_write, is_allowed, requires_propagation,
}
use gh_aw_mcpg.Difc.Evaluator.Write.{evaluate_write-allowed_iff}
use gh_aw_mcpg.Difc.Flow.Laws.{FlowsTo}
use gh_aw_mcpg.Difc.Label.{Label, wildcard_tag}
use gh_aw_mcpg.Difc.Label.Laws.{has_tag}
use gh_aw_mcpg.Difc.Resource.{LabeledResource}
use gh_aw_mcpg.Difc.TagSet.{Tag, contains}
use gh_aw_mcpg.Difc.TagSet.Laws.{
  contains-add, contains-add_all, contains-remove, contains-remove_all,
}

-- The operations on an agent's labels.
pub data AgentEvent : Type 0 where
  gain_secrecy : Tag → AgentEvent
  gain_all_secrecy : List Tag → AgentEvent
  gain_integrity : Tag → AgentEvent
  gain_all_integrity : List Tag → AgentEvent
  drop_integrity : Tag → AgentEvent
  drop_all_integrity : List Tag → AgentEvent
  propagation : EvaluationResult → AgentEvent
  accumulation : LabeledResource → AgentEvent

pub agent_step : AgentLabels → AgentEvent → AgentLabels
agent_step a (gain_secrecy tag) = add_secrecy_tag a tag
agent_step a (gain_all_secrecy tags) = add_secrecy_tags a tags
agent_step a (gain_integrity tag) = add_integrity_tag a tag
agent_step a (gain_all_integrity tags) = add_integrity_tags a tags
agent_step a (drop_integrity tag) = drop_integrity_tag a tag
agent_step a (drop_all_integrity tags) = drop_integrity_tags a tags
agent_step a (propagation result) = (apply_propagation a (some result)).0
agent_step a (accumulation r) = accumulate_from_read a r

pub agent_run : AgentLabels → List AgentEvent → AgentLabels
agent_run a [] = a
agent_run a (ev ∷ rest) = agent_run (agent_step a ev) rest

-- whether an event adds the tag to the agent's integrity
abbrev pub grants : Tag → AgentEvent → Bool
grants t (gain_integrity tag) = tag == t
grants t (gain_all_integrity tags) = has_key tags t
grants t _ = false

-- no event adds the tag to the agent's integrity
abbrev pub NoGrant : Tag → List AgentEvent → Type 0
NoGrant t evs = All (λ ev. grants t ev ≡ false) evs

idle :
    (a : AgentLabels) (result : EvaluationResult)
    → requires_propagation result ≡ false
    → (apply_propagation a (some result)).0 ≡ a
unfolding apply_propagation
idle a result h = ground arith

step-secrecy :
    (a : AgentLabels) (ev : AgentEvent) (t : Tag)
    → contains a.secrecy t ≡ true
    → contains (agent_step a ev).secrecy t ≡ true
unfolding agent_step add_secrecy_tag add_secrecy_tags add_integrity_tag add_integrity_tags
    drop_integrity_tag drop_integrity_tags
step-secrecy a (gain_secrecy tag) t h = ground (arith, contains-add a.secrecy tag t)
step-secrecy a (gain_all_secrecy tags) t h = ground (arith, contains-add_all a.secrecy tags t)
step-secrecy a (gain_integrity tag) t h = h
step-secrecy a (gain_all_integrity tags) t h = h
step-secrecy a (drop_integrity tag) t h = h
step-secrecy a (drop_all_integrity tags) t h = h
step-secrecy a (propagation result) t h = elim (Bool-cases (requires_propagation result)) [
  | inl asks ↦ ground (arith, contains-propagation_secrecy a result t asks)
  | inr quiet ↦ rw (idle a result quiet) h
]
step-secrecy a (accumulation r) t h = ground (arith, contains-accumulate_secrecy a r t)

step-integrity :
    (a : AgentLabels) (ev : AgentEvent) (t : Tag)
    → grants t ev ≡ false
    → contains a.integrity t ≡ false
    → contains (agent_step a ev).integrity t ≡ false
unfolding agent_step add_secrecy_tag add_secrecy_tags add_integrity_tag add_integrity_tags
    drop_integrity_tag drop_integrity_tags
step-integrity a (gain_secrecy tag) t g h = h
step-integrity a (gain_all_secrecy tags) t g h = h
step-integrity a (gain_integrity tag) t g h =
    ground (arith, contains-add a.integrity tag t, str_beq_iff tag t)
step-integrity a (gain_all_integrity tags) t g h =
    ground (arith, contains-add_all a.integrity tags t)
step-integrity a (drop_integrity tag) t g h = ground (arith, contains-remove a.integrity tag t)
step-integrity a (drop_all_integrity tags) t g h =
    ground (arith, contains-remove_all a.integrity tags t)
step-integrity a (propagation result) t g h = elim (Bool-cases (requires_propagation result)) [
  | inl asks ↦ ground (arith, contains-propagation_integrity a result t asks)
  | inr quiet ↦ rw (idle a result quiet) h
]
step-integrity a (accumulation r) t g h = ground (arith, contains-accumulate_integrity a r t)

run-secrecy :
    (a : AgentLabels) (evs : List AgentEvent) (t : Tag)
    → contains a.secrecy t ≡ true
    → contains (agent_run a evs).secrecy t ≡ true
unfolding agent_run
run-secrecy a [] t h = h
run-secrecy a (ev ∷ evs) t h = run-secrecy (agent_step a ev) evs t (step-secrecy a ev t h)

run-integrity :
    (a : AgentLabels) (evs : List AgentEvent) (t : Tag)
    → NoGrant t evs
    → contains a.integrity t ≡ false
    → contains (agent_run a evs).integrity t ≡ false
unfolding agent_run
run-integrity a [] t g h = h
run-integrity a (ev ∷ evs) t (g, gs) h =
    run-integrity (agent_step a ev) evs t gs (step-integrity a ev t g h)

denied_of_not : (b : Bool) → ¬ (b ≡ true) → b ≡ false
denied_of_not true h = absurd (h refl)
denied_of_not false h = refl

pub denied_secrecy :
    (e : Evaluator) (s i : Label) (w : LabeledResource) (t : Tag)
    → contains s t ≡ true
    → has_tag w.secrecy.label t ≡ false
    → has_tag w.secrecy.label wildcard_tag ≡ false
    → is_allowed (evaluate_write e s i w) ≡ false
denied_secrecy e s i w t has lacks closed =
    denied_of_not _ (λ h. leak ((evaluate_write-allowed_iff e s i w).0 h).0)
  where
    leak : FlowsTo (some s) w.secrecy.label → ⊥
    leak (inl wild) = cc
    leak (inr sub) = cc (sub t has)

denied_integrity :
    (e : Evaluator) (s i : Label) (w : LabeledResource) (t : Tag)
    → contains i t ≡ false
    → contains i wildcard_tag ≡ false
    → has_tag w.integrity.label t ≡ true
    → is_allowed (evaluate_write e s i w) ≡ false
denied_integrity e s i w t lacks plain needs =
    denied_of_not _ (λ h. launder ((evaluate_write-allowed_iff e s i w).0 h).1)
  where
    launder : FlowsTo w.integrity.label (some i) → ⊥
    launder (inl wild) = cc
    launder (inr sub) = cc (sub t needs)

-- After an agent has accumulated a resource that bears a secrecy tag, and after any further
-- events on its labels, those that raise its integrity included, every evaluator denies its
-- writes to a resource that bears neither that tag nor the wildcard tag.
pub accumulate_from_read_no_leak :
    (e : Evaluator) (a : AgentLabels) (r w : LabeledResource) (t : Tag) (evs : List AgentEvent)
    → has_tag r.secrecy.label t ≡ true
    → has_tag w.secrecy.label t ≡ false
    → has_tag w.secrecy.label wildcard_tag ≡ false
    → let a' = agent_run (accumulate_from_read a r) evs in
      is_allowed (evaluate_write e a'.secrecy a'.integrity w) ≡ false
accumulate_from_read_no_leak e a r w t evs secret lacks closed =
    let a' = agent_run (accumulate_from_read a r) evs in
    denied_secrecy e a'.secrecy a'.integrity w t
      (run-secrecy (accumulate_from_read a r) evs t
        (ground (arith, contains-accumulate_secrecy a r t)))
      lacks closed

-- After an agent has accumulated a resource whose integrity label, not nil, lacks a tag and the
-- wildcard tag, and after any further events on its labels of which none adds one of these two tags
-- to its integrity, every evaluator denies its writes to a resource that requires that tag.
pub accumulate_from_read_no_launder :
    (e : Evaluator) (a : AgentLabels) (r w : LabeledResource) (l : Label) (t : Tag)
    (evs : List AgentEvent)
    → r.integrity.label ≡ some l
    → contains l t ≡ false
    → contains l wildcard_tag ≡ false
    → has_tag w.integrity.label t ≡ true
    → NoGrant t evs
    → NoGrant wildcard_tag evs
    → let a' = agent_run (accumulate_from_read a r) evs in
      is_allowed (evaluate_write e a'.secrecy a'.integrity w) ≡ false
accumulate_from_read_no_launder e a r w l t evs label lacks plain needs no_tag no_wildcard =
    let a' = agent_run (accumulate_from_read a r) evs in
    denied_integrity e a'.secrecy a'.integrity w t (gone t no_tag lacks)
      (gone wildcard_tag no_wildcard plain) needs
  where
    gone :
        (u : Tag)
        → NoGrant u evs
        → contains l u ≡ false
        → contains (agent_run (accumulate_from_read a r) evs).integrity u ≡ false
    gone u none_grants h =
        run-integrity (accumulate_from_read a r) evs u none_grants
          (ground (arith, contains-accumulate_integrity a r u))
