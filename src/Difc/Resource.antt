-- ===== src/Difc/Resource.antt =====
-- internal/difc/resource.go: resources and response data with labels. `Structure`, which nothing
-- reads, is left out; the data of an item is of any type.
pub mod Laws
use gh_aw_mcpg.Difc.Label
use gh_aw_mcpg.Common.{
  Bool, List, Option, [], arith, if◌then◌else◌, is_nil, length, map, none, refl, some, ℕ, ◌∷◌,
}
use gh_aw_mcpg.Common.Text.{Str, bytes, str_eq}
use gh_aw_mcpg.Difc.Flow.{IntegrityLabel, SecrecyLabel, new_integrity_label, new_secrecy_label}
use gh_aw_mcpg.Difc.Label.{Label, union}

pub record LabeledResource : Type 0 where
  pub description : Str
  pub secrecy : SecrecyLabel
  pub integrity : IntegrityLabel

unfoldable pub new_labeled_resource : Str → LabeledResource
unfolding new_secrecy_label new_integrity_label
new_labeled_resource description = record {
  description = description;
  secrecy = new_secrecy_label [];
  integrity = new_integrity_label [];
}

pub record LabeledItem {ℓ} (D : Type ℓ) : Type ℓ where
  pub content : D
  pub labels : Option LabeledResource

pub record CollectionLabeledData {ℓ} (D : Type ℓ) : Type ℓ where
  pub items : List (LabeledItem D)

pub record FilteredItemDetail {ℓ} (D : Type ℓ) : Type ℓ where
  pub item : LabeledItem D
  pub reason : Str
  pub is_secrecy_violation : Bool

pub record FilteredCollectionLabeledData {ℓ} (D : Type ℓ) : Type ℓ where
  pub accessible : List (LabeledItem D)
  pub filtered : List (FilteredItemDetail D)
  pub total_count : ℕ
  pub filter_reason : Str

-- `Union` through the pointer in the aggregate, which the constructor has set
union_into : Option Label → Option Label → Option Label
union_into none other = none
union_into (some l) other = some (Label.union l other)

-- one round of the loop that aggregates the labels of the items
add_item : LabeledResource → Option LabeledResource → LabeledResource
unfolding union_into
add_item overall none = overall
add_item overall (some labels) = record overall {
  secrecy = record { label = union_into overall.secrecy.label labels.secrecy.label };
  integrity = record { label = union_into overall.integrity.label labels.integrity.label };
}

pub aggregate {ℓ} : {D : Type ℓ} → LabeledResource → List (LabeledItem D) → LabeledResource
unfolding add_item
aggregate overall [] = overall
aggregate overall (item ∷ rest) = aggregate (add_item overall item.labels) rest

module _ {ℓ} {D : Type ℓ} where
  -- `CollectionLabeledData.Overall`
  pub overall : CollectionLabeledData D → LabeledResource
  unfolding aggregate new_labeled_resource
  overall c =
      if is_nil c.items
      then new_labeled_resource (bytes "empty collection")
      else aggregate (new_labeled_resource (bytes "collection")) c.items

  -- `FilteredCollectionLabeledData.Overall`
  unfoldable pub overall_filtered : FilteredCollectionLabeledData D → LabeledResource
  unfolding aggregate new_labeled_resource
  overall_filtered f =
      if is_nil f.accessible
      then new_labeled_resource (bytes "empty filtered collection")
      else aggregate (new_labeled_resource (bytes "filtered collection")) f.accessible

  abbrev pub data_of : LabeledItem D → D
  data_of item = item.content

  -- `CollectionLabeledData.ToResult`
  unfoldable pub to_result : CollectionLabeledData D → List D
  to_result c = map data_of c.items

  -- `FilteredCollectionLabeledData.ToResult`
  unfoldable pub to_result_filtered : FilteredCollectionLabeledData D → List D
  to_result_filtered f = map data_of f.accessible

  abbrev pub get_accessible_count : FilteredCollectionLabeledData D → ℕ
  get_accessible_count f = length f.accessible

  abbrev pub get_filtered_count : FilteredCollectionLabeledData D → ℕ
  get_filtered_count f = length f.filtered
