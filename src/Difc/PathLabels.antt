-- ===== src/Difc/PathLabels.antt =====
-- Labels of a response by JSON pointers: internal/difc/path_labels.go.
pub mod Pointer
pub mod Laws
use gh_aw_mcpg.Common.{
  Bool, List, Option, [], arith, eqb, false, if◌then◌else◌, is_nil, leb, map, nat_eq, none, refl,
  some, true, ℕ, ◌++◌, ◌+◌, ◌-◌, ◌==◌, ◌||◌, ◌∷◌,
}
use gh_aw_mcpg.Common.Decimal.{atoi}
use gh_aw_mcpg.Common.Dict.{insert, lookup}
use gh_aw_mcpg.Common.Int.{negsuc, pos, ℤ}
use gh_aw_mcpg.Common.Json.{Json, array, elements, entries, object}
use gh_aw_mcpg.Common.Result.{Result, err, ok, ◌>>=◌, ◌>>◌}
use gh_aw_mcpg.Common.Split.{split}
use gh_aw_mcpg.Common.Text.{Str, bytes, has_prefix, str_eq, strip_prefix}
use gh_aw_mcpg.Difc.Label.{Label}
use gh_aw_mcpg.Difc.Pipeline.{items}
use gh_aw_mcpg.Difc.Resource.{
  CollectionLabeledData, LabeledItem, LabeledResource, aggregate, new_labeled_resource,
}
use gh_aw_mcpg.Difc.TagSet.{add_all}
use gh_aw_mcpg.Mcp.Result.{extract_text_content}

pub record PathLabelEntry : Type 0 where
  pub description : Str
  pub secrecy : List Str
  pub integrity : List Str

pub record PathLabel : Type 0 where
  pub path : Str
  pub labels : PathLabelEntry

pub record PathLabels : Type 0 where
  pub labeled_paths : List PathLabel
  pub default_labels : Option PathLabelEntry
  pub items_path : Str

pub data PathError : Type 0 where
  path_not_found not_an_index out_of_bounds no_container no_array : PathError

-- the resolved items, with the data as it came
pub record PathLabeledData : Type 0 where
  pub original_data : Json
  pub unwrapped_data : Json
  pub is_mcp_wrapped : Bool
  pub path_labels : PathLabels
  pub resolved_items : List (LabeledItem Json)

unfoldable pub add_labels : Option Label → List Str → Option Label
add_labels none tags = none
add_labels (some l) tags = some (add_all l tags)

-- `pathEntryToResource`
unfoldable pub labeled_resource : LabeledResource → PathLabelEntry → LabeledResource
labeled_resource r entry = record r {
  secrecy = record { label = add_labels r.secrecy.label entry.secrecy };
  integrity = record { label = add_labels r.integrity.label entry.integrity };
}

unfoldable pub path_entry_to_resource : Option PathLabelEntry → LabeledResource
path_entry_to_resource none = new_labeled_resource (bytes "unlabeled")
path_entry_to_resource (some entry) =
    labeled_resource (new_labeled_resource entry.description) entry

-- one byte of `strings.ReplaceAll` for a text of two different bytes; the flag says that the byte before
-- was the first of them
abbrev replaced : ℕ → ℕ → ℕ → Bool → ℕ → Str → Str
replaced a b c pending x rest =
    if pending
    then (if eqb x b then c ∷ rest else if eqb x a then a ∷ rest else a ∷ x ∷ rest)
    else if eqb x a
    then rest
    else x ∷ rest

unfoldable pub replace_from : ℕ → ℕ → ℕ → Bool → Str → Str
replace_from a b c false [] = []
replace_from a b c true [] = a ∷ []
replace_from a b c pending (x ∷ s) =
    let rest = replace_from a b c (eqb x a) s in replaced a b c pending x rest

unfoldable pub unescape : Str → Str
unescape part = replace_from b'~' b'0' b'~' false (replace_from b'~' b'1' b'/' false part)

-- a path without one leading slash
unfoldable pub without_slash : Str → Str
without_slash [] = []
without_slash (c ∷ path) = if eqb c b'/' then path else c ∷ path

unfoldable pub split_json_pointer : Str → List Str
split_json_pointer path =
    if is_nil path || path == b'/' ∷ [] then [] else map unescape (split b'/' (without_slash path))

unfoldable pub get_elem : List Json → ℕ → Result PathError Json
get_elem [] n = err PathError.out_of_bounds
get_elem (v ∷ vs) n = if leb n 0 then ok v else get_elem vs (n - 1)

unfoldable pub at_index : List Json → Option ℤ → Result PathError Json
at_index vs none = err PathError.not_an_index
at_index vs (some (pos n)) = get_elem vs n
at_index vs (some (negsuc n)) = err PathError.out_of_bounds

unfoldable pub found : Option Json → Result PathError Json
found none = err PathError.path_not_found
found (some v) = ok v

-- one step of the loop in `extractRawItems`
unfoldable pub step : Str → Json → Result PathError Json
step part (object fields) = found (lookup part (entries fields))
step part (array vs) = at_index (elements vs) (atoi part)
step part other = err PathError.no_container

unfoldable pub navigate : List Str → Json → Result PathError Json
navigate [] current = ok current
navigate (part ∷ parts) current =
    if is_nil part
    then navigate parts current
    else (do next ← step part current; navigate parts next)

unfoldable pub items_of : Json → Result PathError (List Json)
items_of (array vs) = ok (elements vs)
items_of other = err PathError.no_array

abbrev root_items : Json → Option (List Json)
root_items (array vs) = some (elements vs)
root_items other = none

-- `none` is a response that is one item
unfoldable pub extract_raw_items : Json → Str → Result PathError (Option (List Json))
extract_raw_items v items_path = if is_nil items_path then ok (root_items v) else (do
  current ← navigate (split_json_pointer items_path) v
  vs ← items_of current
  ok (some vs))

unfoldable pub with_slash : Str → Str
with_slash path = if has_prefix (b'/' ∷ []) path then path else b'/' ∷ path

-- the first segment as an index
unfoldable pub first_index : List Str → Option ℤ
first_index [] = none
first_index (part ∷ parts) = atoi part

abbrev remainder : Str → Str → Option Str
remainder path [] = some path
remainder path (c ∷ items_path) =
    elim (strip_prefix (with_slash (c ∷ items_path) ++ b'/' ∷ []) path) [
      | none ↦ none
      | some rest ↦ some (b'/' ∷ rest)
    ]

unfoldable pub extract_index_from_path : Str → Str → Option ℤ
extract_index_from_path path items_path = elim (remainder (with_slash path) items_path) [
  | none ↦ none
  | some rest ↦ first_index (split_json_pointer rest)
]

-- one round of the loop that files the labels by index; a negative index is never looked up
pub file_label : Option ℤ → PathLabelEntry → List (ℕ × PathLabelEntry) → List (ℕ × PathLabelEntry)
file_label (some (pos i)) entry m = insert ⦃e = nat_eq⦄ i entry m
file_label other entry m = m

unfoldable pub index_labels :
    Str → List PathLabel → List (ℕ × PathLabelEntry) → List (ℕ × PathLabelEntry)
index_labels items_path [] m = m
index_labels items_path (pl ∷ pls) m =
    index_labels items_path pls
      (file_label (extract_index_from_path pl.path items_path) pl.labels m)

unfoldable pub or_default : Option PathLabelEntry → Option PathLabelEntry → Option PathLabelEntry
or_default none fallback = fallback
or_default (some entry) fallback = some entry

unfoldable pub label_items :
    List (ℕ × PathLabelEntry) → Option PathLabelEntry → ℕ → List Json → List (LabeledItem Json)
label_items m fallback i [] = []
label_items m fallback i (item ∷ rest) =
    record {
      content = item;
      labels = some (path_entry_to_resource (or_default (lookup ⦃e = nat_eq⦄ i m) fallback));
    }
    ∷ label_items m fallback (i + 1) rest

unfoldable pub resolved : Json → PathLabels → Option (List Json) → List (LabeledItem Json)
resolved original pl none =
    record { content = original; labels = some (path_entry_to_resource pl.default_labels) } ∷ []
resolved original pl (some vs) =
    label_items (index_labels pl.items_path pl.labeled_paths []) pl.default_labels 0 vs

unfoldable pub resolve : Json → Json → PathLabels → Result PathError (List (LabeledItem Json))
resolve original unwrapped pl = do
  raw ← extract_raw_items unwrapped pl.items_path
  ok (resolved original pl raw)

pub overall : PathLabeledData → LabeledResource
overall pld =
    if is_nil pld.resolved_items
    then new_labeled_resource (bytes "empty path-labeled data")
    else aggregate (new_labeled_resource (bytes "path-labeled collection")) pld.resolved_items

unfoldable pub to_collection_labeled_data : PathLabeledData → CollectionLabeledData Json
to_collection_labeled_data pld = record { items = pld.resolved_items }

module _ (unmarshal : Str → Option Json) where
  -- the inner JSON of an MCP response, if it is one
  unfoldable pub unwrap_text : Json → Str → Json × Bool
  unwrap_text v text =
      if is_nil text
      then (v, false)
      else elim (unmarshal text) [ none ↦ (v, false) | some inner ↦ (inner, true) ]

  unfoldable pub unwrap_mcp_response : Json → Json × Bool
  unwrap_mcp_response (object fields) =
      unwrap_text (object fields) (extract_text_content (entries fields))
  unwrap_mcp_response v = (v, false)

  unfoldable pub new_path_labeled_data : Json → PathLabels → Result PathError PathLabeledData
  new_path_labeled_data original pl = do
    let (unwrapped, is_wrapped) = unwrap_mcp_response original
    labeled ← resolve original unwrapped pl
    ok (record {
      original_data = original;
      unwrapped_data = unwrapped;
      is_mcp_wrapped = is_wrapped;
      path_labels = pl;
      resolved_items = labeled;
    })
