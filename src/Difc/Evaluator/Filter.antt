-- ===== src/Difc/Evaluator/Filter.antt =====
-- The sorting of a collection's items (internal/difc/evaluator.go, `FilterCollection`), against a
-- description by two passes.
use gh_aw_mcpg.Common.{
  ◌≡◌, refl, ap, Bool, true, false, not, List, [], ◌∷◌, some, none, Option, arith, keep, length,
  length-keep_both, length-map, Option-cases, ◌⊎◌, inl, inr, All, map, ◌+◌,
}
use gh_aw_mcpg.Common.Text.{bytes}
use gh_aw_mcpg.Difc.Label.{Label}
use gh_aw_mcpg.Difc.Mode.{OperationType}
use gh_aw_mcpg.Difc.Resource.{
  LabeledResource, LabeledItem, CollectionLabeledData, FilteredItemDetail,
  FilteredCollectionLabeledData,
}
use gh_aw_mcpg.Difc.Evaluator.{
  Evaluator, is_allowed, evaluate, sort_item, filter_items, filter_collection,
}

abbrev has_labels : Option LabeledResource → Bool
has_labels none = false
has_labels (some r) = true

module _ {ℓ} {D : Type ℓ} where
  -- Every item has labels.
  abbrev pub IsLabeled : List (LabeledItem D) → Type 0
  IsLabeled items = All (λ item. has_labels item.labels ≡ true) items

  abbrev pub item_of : FilteredItemDetail D → LabeledItem D
  item_of d = d.item

-- whether the policy lets the agent have what bears the labels
abbrev pub labels_allow : Evaluator → Label → Label → OperationType → Option LabeledResource → Bool
labels_allow e s i op none = false
labels_allow e s i op (some labels) = is_allowed (evaluate e s i labels op)

module _ {ℓ} {D : Type ℓ} (e : Evaluator) (s i : Label) (op : OperationType) where
  abbrev pub item_allowed : LabeledItem D → Bool
  item_allowed item = labels_allow e s i op item.labels

  filter_items_step :
      (item : LabeledItem D) (rest : List (LabeledItem D)) (labels : LabeledResource)
      (sorted : List (LabeledItem D) × List (FilteredItemDetail D))
      → item.labels ≡ some labels
      → filter_items e s i op rest ≡ some sorted
      → filter_items e s i op (item ∷ rest)
        ≡ some (sort_item e s i op item (evaluate e s i labels op) sorted)
  unfolding filter_items
  filter_items_step item rest labels sorted h k = ground arith

  sort_item-keep :
      (item : LabeledItem D) (rest : List (LabeledItem D)) (labels : LabeledResource)
      (sorted : List (LabeledItem D) × List (FilteredItemDetail D))
      → item.labels ≡ some labels
      → sorted.0 ≡ keep item_allowed rest
      → map item_of sorted.1 ≡ keep (λ x. not (item_allowed x)) rest
      → let now = sort_item e s i op item (evaluate e s i labels op) sorted in
        (now.0 ≡ keep item_allowed (item ∷ rest))
        × (map item_of now.1 ≡ keep (λ x. not (item_allowed x)) (item ∷ rest))
  unfolding sort_item keep
  sort_item-keep item rest labels sorted h a b = (ground arith, ground arith)

  filter_items-keep :
      (items : List (LabeledItem D))
      → IsLabeled items
      → (sorted : List (LabeledItem D) × List (FilteredItemDetail D)) × (filter_items e s i op items
          ≡ some sorted)
        × (sorted.0 ≡ keep item_allowed items)
        × (map item_of sorted.1 ≡ keep (λ x. not (item_allowed x)) items)
  unfolding filter_items keep
  filter_items-keep [] h = (([], []), refl, refl, refl)
  filter_items-keep (item ∷ rest) h =
      let (sorted, found, kept, dropped) = filter_items-keep rest h.1 in
      go (Option-cases item.labels) sorted found kept dropped
    where
      go :
          (item.labels ≡ none) ⊎ ((r : LabeledResource) × (item.labels ≡ some r))
          → (sorted : List (LabeledItem D) × List (FilteredItemDetail D))
          → filter_items e s i op rest ≡ some sorted
          → sorted.0 ≡ keep item_allowed rest
          → map item_of sorted.1 ≡ keep (λ x. not (item_allowed x)) rest
          → (sorted : List (LabeledItem D) × List (FilteredItemDetail D)) × (filter_items e s i op
                (item ∷ rest)
              ≡ some sorted)
            × (sorted.0 ≡ keep item_allowed (item ∷ rest))
            × (map item_of sorted.1 ≡ keep (λ x. not (item_allowed x)) (item ∷ rest))
      go (inl no_labels) sorted found kept dropped = absurd (ground (arith, h.0))
      go (inr (labels, has)) sorted found kept dropped = (
        sort_item e s i op item (evaluate e s i labels op) sorted,
        filter_items_step item rest labels sorted has found,
        (sort_item-keep item rest labels sorted has kept dropped).0,
        (sort_item-keep item rest labels sorted has kept dropped).1,
      )

  -- For a collection whose items all have labels, `FilterCollection` succeeds, its accessible items
  -- are those that the policy allows and its filtered items those that it denies, each in their
  -- order, and `TotalCount` is the number of the two together.
  pub filter_collection_partition :
      (c : CollectionLabeledData D)
      → IsLabeled c.items
      → (f : FilteredCollectionLabeledData D) × (filter_collection e s i op c ≡ some f)
        × (f.accessible ≡ keep item_allowed c.items)
        × (map item_of f.filtered ≡ keep (λ x. not (item_allowed x)) c.items)
        × (length f.accessible + length f.filtered ≡ f.total_count)
  unfolding filter_collection
  filter_collection_partition c h =
      let (sorted, found, kept, dropped) = filter_items-keep c.items h in
      (
        record {
          accessible = sorted.0;
          filtered = sorted.1;
          total_count = length c.items;
          filter_reason = bytes "DIFC policy";
        },
        rw (found, filter_collection),
        kept,
        dropped,
        omega (
          arith,
          length-map sorted.1 item_of,
          length-keep_both item_allowed c.items,
          ap length kept,
          ap length dropped,
        ),
      )
