-- ===== src/Difc/Evaluator.antt =====
-- internal/difc/evaluator.go: the access decisions. The labels of an agent are never nil; those of a
-- resource may be.
use gh_aw_mcpg.Common.{
  Bool, true, false, not, ◌&&◌, ◌||◌, List, [], ◌∷◌, ◌++◌, Option, none, some, length, is_nil,
  if◌then◌else◌,
}
use gh_aw_mcpg.Common.Text.{Str, bytes}
use gh_aw_mcpg.Difc.TagSet.{Tag}
use gh_aw_mcpg.Difc.Label.{Label}
use gh_aw_mcpg.Difc.Flow.{LabelKind, secrecy, integrity, FlowLabel, check_flow}
use gh_aw_mcpg.Difc.Mode.{
  OperationType, read, write, read_write, EnforcementMode, strict, filter, propagate,
  AccessDecision, allow, deny, allow_with_propagate,
}
use gh_aw_mcpg.Difc.Resource.{
  LabeledResource, LabeledItem, CollectionLabeledData, FilteredItemDetail,
  FilteredCollectionLabeledData,
}
use gh_aw_mcpg.Difc.Violations.{
  read_integrity_reason, read_secrecy_reason, write_integrity_reason, write_secrecy_reason,
  propagation_reason,
}
pub mod Read
pub mod Write
pub mod Filter

pub record EvaluationResult : Type 0 where
  pub decision : AccessDecision
  pub secrecy_to_add : List Tag
  pub integrity_to_drop : List Tag
  pub reason : Str

abbrev pub is_allowed_decision : AccessDecision → Bool
is_allowed_decision allow = true
is_allowed_decision deny = false
is_allowed_decision allow_with_propagate = true

abbrev pub is_allowed : EvaluationResult → Bool
is_allowed e = is_allowed_decision e.decision

abbrev pub is_propagation : AccessDecision → Bool
is_propagation allow_with_propagate = true
is_propagation _ = false

abbrev pub requires_propagation : EvaluationResult → Bool
requires_propagation e = is_propagation e.decision

pub record Evaluator : Type 0 where
  pub mode : EnforcementMode

unfoldable set_mode : Evaluator → EnforcementMode → Evaluator
set_mode e mode = record e { mode = mode }

abbrev pub new_empty_evaluation_result : EvaluationResult
new_empty_evaluation_result = record {
  decision = allow;
  secrecy_to_add = [];
  integrity_to_drop = [];
  reason = [];
}

-- a pointer to a label that is not nil
abbrev pub flow_of : (kind : LabelKind) → Label → Option (FlowLabel kind)
flow_of kind l = some (record { label = some l })

abbrev is_propagate : EnforcementMode → Bool
is_propagate propagate = true
is_propagate _ = false

-- the verdicts and tags of the two checks of a read, joined by mode
read_result :
    EnforcementMode → LabeledResource → Bool × List Tag → Bool × List Tag → EvaluationResult
read_result mode resource (integrity_ok, missing) (secrecy_ok, extra) =
    let ok = new_empty_evaluation_result in
    if is_propagate mode
    then if not integrity_ok || not secrecy_ok
      then record {
        decision = allow_with_propagate;
        secrecy_to_add = extra;
        integrity_to_drop = missing;
        reason = propagation_reason secrecy_ok integrity_ok extra missing;
      }
      else ok
    else if not integrity_ok
    then record ok {
      decision = deny;
      integrity_to_drop = missing;
      reason = read_integrity_reason resource.description missing;
    }
    else if not secrecy_ok
    then record ok {
      decision = deny;
      secrecy_to_add = extra;
      reason = read_secrecy_reason resource.description extra;
    }
    else ok

unfoldable pub evaluate_read : Evaluator → Label → Label → LabeledResource → EvaluationResult
unfolding read_result
evaluate_read e agent_secrecy agent_integrity resource =
    read_result e.mode resource
      (check_flow (some resource.integrity) (flow_of integrity agent_integrity))
      (check_flow (some resource.secrecy) (flow_of secrecy agent_secrecy))

write_result : LabeledResource → Bool × List Tag → Bool × List Tag → EvaluationResult
write_result resource (integrity_ok, missing) (secrecy_ok, extra) =
    let ok = new_empty_evaluation_result in
    if not integrity_ok
    then record ok {
      decision = deny;
      integrity_to_drop = missing;
      reason = write_integrity_reason resource.description missing;
    }
    else if not secrecy_ok
    then record ok {
      decision = deny;
      secrecy_to_add = extra;
      reason = write_secrecy_reason resource.description extra;
    }
    else ok

unfoldable pub evaluate_write : Evaluator → Label → Label → LabeledResource → EvaluationResult
unfolding write_result
evaluate_write e agent_secrecy agent_integrity resource =
    write_result resource (check_flow (flow_of integrity agent_integrity) (some resource.integrity))
      (check_flow (flow_of secrecy agent_secrecy) (some resource.secrecy))

unfoldable pub evaluate :
    Evaluator → Label → Label → LabeledResource → OperationType → EvaluationResult
evaluate e agent_secrecy agent_integrity resource read =
    evaluate_read e agent_secrecy agent_integrity resource
evaluate e agent_secrecy agent_integrity resource write =
    evaluate_write e agent_secrecy agent_integrity resource
evaluate e agent_secrecy agent_integrity resource read_write =
    let read_res = evaluate_read e agent_secrecy agent_integrity resource in
    let write_res = evaluate_write e agent_secrecy agent_integrity resource in
    if not (is_allowed read_res)
    then read_res
    else if not (is_allowed write_res)
    then write_res
    else new_empty_evaluation_result

-- The loop of `FilterCollection`: the accessible items and the denied ones, in order. An item with
-- no labels makes the evaluator read through a nil pointer, which panics: `none`.
module _ {ℓ} {D : Type ℓ} (e : Evaluator) (s i : Label) (op : OperationType) where
  sort_item :
      LabeledItem D
      → EvaluationResult
      → List (LabeledItem D) × List (FilteredItemDetail D)
      → List (LabeledItem D) × List (FilteredItemDetail D)
  sort_item item result (accessible, filtered) =
      if is_allowed result then (item ∷ accessible, filtered) else (
        accessible,
        record {
          item = item;
          reason = result.reason;
          is_secrecy_violation = not (is_nil result.secrecy_to_add);
        }
            ∷ filtered,
      )

  filter_items : List (LabeledItem D) → Option (List (LabeledItem D) × List (FilteredItemDetail D))
  unfolding sort_item
  filter_items [] = some ([], [])
  filter_items (item ∷ rest) =
      let later = filter_items rest in
      elim item.labels [
        | none ↦ none
        | some labels ↦ elim later [
          | none ↦ none
          | some sorted ↦ some (sort_item item (evaluate e s i labels op) sorted)
        ]
      ]

  pub filter_collection : CollectionLabeledData D → Option (FilteredCollectionLabeledData D)
  unfolding filter_items
  filter_collection collection = elim (filter_items collection.items) [
    | none ↦ none
    | some sorted ↦ some (record {
      accessible = sorted.0;
      filtered = sorted.1;
      total_count = length collection.items;
      filter_reason = bytes "DIFC policy";
    })
  ]
