-- ===== src/Difc/Pipeline/Laws.antt =====
-- The decisions of the pipeline (internal/difc/pipeline_decisions.go) against the policy.
use gh_aw_mcpg.Common.{
  ◌≡◌, ◌≢◌, ◌↔◌, refl, ap, true, false, not, ◌&&◌, List, Option, none, some, arith, keep, is_nil,
  length, length-map, map, if◌then◌else◌,
}
use gh_aw_mcpg.Common.Text.{str_eq}
use gh_aw_mcpg.Difc.TagSet.{Tag, contains}
use gh_aw_mcpg.Difc.Label.{Label}
use gh_aw_mcpg.Difc.Label.Laws.{has_tag}
use gh_aw_mcpg.Difc.Mode.{OperationType, read, write, read_write, EnforcementMode}
use gh_aw_mcpg.Difc.Resource.{
  LabeledResource, LabeledItem, CollectionLabeledData, FilteredCollectionLabeledData,
  to_result_filtered, data_of, get_accessible_count, get_filtered_count, overall,
}
use gh_aw_mcpg.Difc.Resource.Laws.{some_trusted, overall-has_tag}
use gh_aw_mcpg.Difc.Evaluator.{Evaluator, is_allowed, evaluate}
use gh_aw_mcpg.Difc.Evaluator.Filter.{IsLabeled, item_allowed, item_of, filter_collection_partition}
use gh_aw_mcpg.Difc.Agent.{AgentLabels, accumulate_from_read}
use gh_aw_mcpg.Difc.Agent.Laws.{trusts, contains-accumulate_integrity}
use gh_aw_mcpg.Difc.Pipeline.{
  coarse_allowed, coarse_bypass_for_read, coarse_denied, evaluate_coarse_access, is_strict,
  should_call_label_response, collection, items, FilterResult, block_or_convert,
  filter_and_convert_labeled_data,
}

-- The coarse check passes exactly what the evaluator allows; of what it denies, reads go on to the
-- filter and all else is denied. The evaluator's own result comes with the outcome.
pub evaluate_coarse_access_outcome :
    (e : Evaluator) (s i : Label) (r : LabeledResource) (op : OperationType)
    → let (outcome, result) = evaluate_coarse_access e s i r op in
      ((outcome ≡ coarse_allowed) ↔ (is_allowed (evaluate e s i r op) ≡ true))
      × ((outcome ≡ coarse_bypass_for_read)
          ↔ ((is_allowed (evaluate e s i r op) ≡ false) × (op ≡ read)))
      × ((outcome ≡ coarse_denied) ↔ ((is_allowed (evaluate e s i r op) ≡ false) × (op ≢ read)))
      × (result ≡ evaluate e s i r op)
unfolding evaluate_coarse_access
evaluate_coarse_access_outcome e s i r read = ground arith
evaluate_coarse_access_outcome e s i r write = ground arith
evaluate_coarse_access_outcome e s i r read_write = ground arith

-- Where the coarse check lets a denied read pass, the guard is asked to label the response, in every
-- mode.
pub evaluate_coarse_access-label_response :
    (e : Evaluator) (s i : Label) (r : LabeledResource) (op : OperationType)
    (mode : EnforcementMode)
    → (evaluate_coarse_access e s i r op).0 ≡ coarse_bypass_for_read
    → should_call_label_response op mode ≡ true
unfolding evaluate_coarse_access should_call_label_response
evaluate_coarse_access-label_response e s i r read mode h = ground arith
evaluate_coarse_access-label_response e s i r write mode h = ground arith
evaluate_coarse_access-label_response e s i r read_write mode h = ground arith

module _ {ℓ} {D : Type ℓ} (e : Evaluator) (s i : Label) (op : OperationType) where
  -- the items that the policy denies, and the data of those that it allows
  abbrev pub denied_items : CollectionLabeledData D → List (LabeledItem D)
  denied_items c = keep (λ x. not (item_allowed e s i op x)) c.items

  abbrev pub allowed_data : CollectionLabeledData D → List D
  allowed_data c = map data_of (keep (item_allowed e s i op) c.items)

  block_or_convert_lem :
      (mode : EnforcementMode) (c : CollectionLabeledData D) (f : FilteredCollectionLabeledData D)
      → f.accessible ≡ keep (item_allowed e s i op) c.items
      → length f.filtered ≡ length (denied_items c)
      → let r = block_or_convert mode f in
        (r.blocked ≡ (is_strict mode && not (is_nil (denied_items c))))
        × (r.final_result ≡ (if r.blocked then none else some (items (allowed_data c))))
        × (r.filtered ≡ some f)
  unfolding block_or_convert to_result_filtered
  block_or_convert_lem mode c f kept count = (ground arith, ground arith, ground arith)

  -- For a collection whose items all have labels, phase 5 returns a result: it is blocked exactly if
  -- the mode is strict and the policy denies some item; then it carries no data, and otherwise it
  -- carries the data of exactly the allowed items, in order.
  pub filter_and_convert-collection :
      (mode : EnforcementMode) (c : CollectionLabeledData D)
      → IsLabeled c.items
      → (r : FilterResult D) × (filter_and_convert_labeled_data e s i op (some (collection c)) mode
          ≡ some r)
        × (r.blocked ≡ (is_strict mode && not (is_nil (denied_items c))))
        × (r.final_result ≡ (if r.blocked then none else some (items (allowed_data c))))
  unfolding filter_and_convert_labeled_data
  filter_and_convert-collection mode c h =
      let (f, found, kept, dropped, _) = filter_collection_partition e s i op c h in
      let (b, r, _) =
        block_or_convert_lem mode c f kept
          (omega (arith, length-map f.filtered item_of, ap length dropped)) in
      (block_or_convert mode f, rw (found, filter_and_convert_labeled_data), b, r)

  -- the same, with what the filtering counts
  pub filter_and_convert-counts :
      (mode : EnforcementMode) (c : CollectionLabeledData D)
      → IsLabeled c.items
      → (r : FilterResult D) × (filter_and_convert_labeled_data e s i op (some (collection c)) mode
          ≡ some r)
        × (r.blocked ≡ (is_strict mode && not (is_nil (denied_items c))))
        × (r.final_result ≡ (if r.blocked then none else some (items (allowed_data c))))
        × ((f : FilteredCollectionLabeledData D) × (r.filtered ≡ some f)
            × (get_accessible_count f ≡ length (allowed_data c))
            × (get_filtered_count f ≡ length (denied_items c)))
  unfolding filter_and_convert_labeled_data
  filter_and_convert-counts mode c h =
      let (f, found, kept, dropped, _) = filter_collection_partition e s i op c h in
      let count : length f.filtered ≡ length (denied_items c) =
        omega (arith, length-map f.filtered item_of, ap length dropped) in
      let (b, r, parts) = block_or_convert_lem mode c f kept count in
      (
        block_or_convert mode f,
        rw (found, filter_and_convert_labeled_data) refl,
        b,
        r,
        (
          f,
          parts,
          omega (arith, ap length kept, length-map (keep (item_allowed e s i op) c.items) data_of),
          count,
        ),
      )

-- An agent that accumulates a whole collection keeps each of its integrity tags that some item
-- bears, whatever the other items lack.
pub accumulate_from_read-overall {ℓ} :
    {D : Type ℓ} (a : AgentLabels) (c : CollectionLabeledData D) (t : Tag)
    → contains a.integrity t ≡ true
    → some_trusted c.items t ≡ true
    → contains (accumulate_from_read a (overall c)).integrity t ≡ true
accumulate_from_read-overall a c t own one = ground (
  arith,
  contains-accumulate_integrity a (overall c) t,
  trusts_of_has_tag (overall c).integrity.label t,
  overall-has_tag c t,
)
  where
    trusts_of_has_tag : (o : Option Label) (t : Tag) → has_tag o t ≡ true → trusts o t ≡ true
    trusts_of_has_tag none t h = refl
    trusts_of_has_tag (some l) t h = h
