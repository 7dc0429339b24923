-- ===== src/Difc/Pipeline.antt =====
-- internal/difc/pipeline_decisions.go: the decisions between the phases of a request.
use gh_aw_mcpg.Common.{
  ℕ, ltb, Bool, true, false, not, ◌&&◌, ◌||◌, List, [], ◌∷◌, Option, none, some, if◌then◌else◌,
}
use gh_aw_mcpg.Difc.Label.{Label}
use gh_aw_mcpg.Difc.Mode.{
  OperationType, read, write, read_write, EnforcementMode, strict, filter, propagate,
}
use gh_aw_mcpg.Difc.Resource.{
  LabeledResource, LabeledItem, CollectionLabeledData, FilteredCollectionLabeledData, overall,
  to_result_filtered, get_filtered_count,
}
use gh_aw_mcpg.Difc.Evaluator.{Evaluator, EvaluationResult, is_allowed, evaluate, filter_collection}
pub mod Laws

pub data CoarseCheckOutcome : Type 0 where
  coarse_allowed coarse_bypass_for_read coarse_denied : CoarseCheckOutcome

abbrev is_read : OperationType → Bool
is_read read = true
is_read _ = false

abbrev is_write : OperationType → Bool
is_write write = true
is_write _ = false

abbrev is_read_write : OperationType → Bool
is_read_write read_write = true
is_read_write _ = false

abbrev pub is_strict : EnforcementMode → Bool
is_strict strict = true
is_strict _ = false

abbrev is_propagate : EnforcementMode → Bool
is_propagate propagate = true
is_propagate _ = false

unfoldable pub should_bypass_coarse_deny : OperationType → Bool
should_bypass_coarse_deny operation = is_read operation

unfoldable pub evaluate_coarse_access :
    Evaluator
    → Label
    → Label
    → LabeledResource
    → OperationType
    → CoarseCheckOutcome × EvaluationResult
unfolding should_bypass_coarse_deny
evaluate_coarse_access evaluator agent_secrecy agent_integrity resource operation =
    let result = evaluate evaluator agent_secrecy agent_integrity resource operation in
    if is_allowed result
    then (coarse_allowed, result)
    else if should_bypass_coarse_deny operation
    then (coarse_bypass_for_read, result)
    else (coarse_denied, result)

unfoldable pub should_call_label_response : OperationType → EnforcementMode → Bool
should_call_label_response operation mode =
    not (is_write operation) && (not (is_read_write operation) || not (is_strict mode))

pub should_block_filtered_response : EnforcementMode → ℕ → Bool
should_block_filtered_response mode filtered_count = is_strict mode && ltb 0 filtered_count

unfoldable pub should_accumulate_read_labels : OperationType → EnforcementMode → Bool
should_accumulate_read_labels operation mode = not (is_write operation) && is_propagate mode

-- What a guard returns for a response: a collection of labelled items, or one labelled value, as
-- `SimpleLabeledData` and `PathLabeledData` are.
pub data LabeledData {ℓ} (D : Type ℓ) : Type ℓ where
  collection : CollectionLabeledData D → LabeledData D
  single : D → LabeledResource → LabeledData D

pub data FinalResult {ℓ} (D : Type ℓ) : Type ℓ where
  items : List D → FinalResult D
  value : D → FinalResult D

pub record FilterResult {ℓ} (D : Type ℓ) : Type ℓ where
  pub final_result : Option (FinalResult D)
  pub filtered : Option (FilteredCollectionLabeledData D)
  pub blocked : Bool

-- `Overall`
unfoldable pub overall_labels {ℓ} : {D : Type ℓ} → LabeledData D → LabeledResource
overall_labels (collection c) = overall c
overall_labels (single v labels) = labels

module _ {ℓ} {D : Type ℓ} where
  -- the branch for a collection, once it is filtered
  block_or_convert : EnforcementMode → FilteredCollectionLabeledData D → FilterResult D
  unfolding should_block_filtered_response
  block_or_convert mode filtered =
      if should_block_filtered_response mode (get_filtered_count filtered)
      then record { final_result = none; filtered = some filtered; blocked = true }
      else record {
        final_result = some (items (to_result_filtered filtered));
        filtered = some filtered;
        blocked = false;
      }

  -- Phase 5; `none` is the panic on an item with no labels.
  unfoldable pub filter_and_convert_labeled_data :
      Evaluator
      → Label
      → Label
      → OperationType
      → Option (LabeledData D)
      → EnforcementMode
      → Option (FilterResult D)
  unfolding block_or_convert
  filter_and_convert_labeled_data e s i operation none mode =
      some (record { final_result = none; filtered = none; blocked = false })
  filter_and_convert_labeled_data e s i operation (some (single v labels)) mode =
      some (record { final_result = some (value v); filtered = none; blocked = false })
  filter_and_convert_labeled_data e s i operation (some (collection c)) mode =
      elim (filter_collection e s i operation c) [
        | none ↦ none
        | some filtered ↦ some (block_or_convert mode filtered)
      ]
