-- ===== src/Proxy/Response.antt =====
-- The shape of filtered responses: internal/proxy/response_transform.go.
pub mod Laws
use gh_aw_mcpg.Common.{
  Bool, List, Option, [], arith, eqb, false, if◌then◌else◌, is_nil, length, none, not, refl, some,
  true, ◌&&◌, ◌==◌, ◌||◌, ◌∷◌,
}
use gh_aw_mcpg.Common.Dict.{insert, lookup}
use gh_aw_mcpg.Common.Int.{negsuc, pos}
use gh_aw_mcpg.Common.Json.{
  Fields, Items, Json, array, boolean, cons, decimal, elements, end, entries, field, integer, nil,
  null, object, string, to_fields, to_items,
}
use gh_aw_mcpg.Common.Text.{Str, bytes, str_eq}

abbrev pub has_field : Str → Fields → Bool
has_field key fields = elim (lookup key (entries fields)) [ none ↦ false | some v ↦ true ]

abbrev pub set_field : Str → Json → Fields → Fields
set_field key v fields = to_fields (insert key v (entries fields))

-- `float64(len(items))`
abbrev pub count_of : List Json → Json
count_of vs = integer (pos (length vs))

abbrev pub array_of : List Json → Json
array_of vs = array (to_items vs)

-- the key of the items in a search response, which is the first of two
abbrev pub set_search_items : List Json → Fields → Fields
set_search_items vs original =
    if has_field (bytes "items") original
    then set_field (bytes "items") (array_of vs) original
    else if has_field (bytes "repositories") original
    then set_field (bytes "repositories") (array_of vs) original
    else original

pub search_envelope : List Json → Fields → Fields
search_envelope vs original =
    set_field (bytes "incomplete_results") (boolean false)
      (set_field (bytes "total_count") (count_of vs) (set_search_items vs original))

pub rewrap_search_response : Json → Json → Json
rewrap_search_response (object original) (array vs) =
    if has_field (bytes "total_count") original
    then object (search_envelope (elements vs) original)
    else array vs
rewrap_search_response original filtered = filtered

-- `reflect.DeepEqual` on decoded values: maps are compared without their order
unfoldable mutual
  pub deep_equal : Json → Json → Bool
  deep_equal null null = true
  deep_equal (boolean b) (boolean c) = if b then c else not c
  deep_equal (integer (pos m)) (integer (pos n)) = eqb m n
  deep_equal (integer (negsuc m)) (integer (negsuc n)) = eqb m n
  deep_equal (decimal s) (decimal t) = s == t
  deep_equal (string s) (string t) = s == t
  deep_equal (array vs) (array ws) = equal_items vs ws
  deep_equal (object f) (object g) =
      eqb (length (entries f)) (length (entries g)) && each_equal f (entries g)
  deep_equal v w = false

  pub equal_items : Items → Items → Bool
  equal_items nil nil = true
  equal_items (cons v vs) (cons w ws) = deep_equal v w && equal_items vs ws
  equal_items vs ws = false

  pub each_equal : Fields → List (Str × Json) → Bool
  each_equal end m = true
  each_equal (field key v fields) m = elim (lookup key m) [
    | none ↦ false
    | some w ↦ deep_equal v w && each_equal fields m
  ]

-- the element that stands for the whole array, if it does
abbrev restored : Items → List Json → Json
restored original (array vs ∷ []) =
    if eqb (length (elements vs)) (length (elements original))
      && (is_nil (elements vs) || deep_equal (array vs) (array original))
    then array vs
    else array_of (array vs ∷ [])
restored original filtered = array_of filtered

abbrev only_element : List Json → Json
only_element (v ∷ []) = v
only_element vs = array_of vs

unfoldable pub unwrap_single_object : Json → Json → Json
unwrap_single_object (array original) (array vs) = restored original (elements vs)
unwrap_single_object (object original) (array vs) =
    if has_field (bytes "total_count") original || has_field (bytes "data") original
    then array vs
    else only_element (elements vs)
unwrap_single_object original filtered = filtered

abbrev pub set_total_count : List Json → Fields → Fields
set_total_count vs fields =
    if has_field (bytes "totalCount") fields
    then set_field (bytes "totalCount") (count_of vs) fields
    else fields

-- the object with its nodes or its edges replaced, if it has some
abbrev replaced_here : List Json → Fields → Option Fields
replaced_here vs fields =
    if has_field (bytes "nodes") fields
    then some (set_total_count vs (set_field (bytes "nodes") (array_of vs) fields))
    else if has_field (bytes "edges") fields
    then some (set_total_count vs (set_field (bytes "edges") (array_of vs) fields))
    else none

abbrev as_object : Option Fields → Option Json
as_object none = none
as_object (some fields) = some (object fields)

abbrev or_else : Option Fields → Option Fields → Option Fields
or_else none other = other
or_else (some fields) other = some fields

abbrev replaced_child : Str → Json → Fields → Option Json → Option Fields → Option Fields
replaced_child key v fields (some changed) rest = some (field key changed fields)
replaced_child key v fields none none = none
replaced_child key v fields none (some rest) = some (field key v rest)

unfoldable mutual
  -- `replaceNodesArray`: the tree with the first array replaced, or `none` if there is none
  pub replace_nodes_array : List Json → Json → Option Json
  replace_nodes_array vs (object fields) =
      as_object (or_else (replaced_here vs fields) (replace_in_children vs fields))
  replace_nodes_array vs other = none

  pub replace_in_children : List Json → Fields → Option Fields
  replace_in_children vs end = none
  replace_in_children vs (field key v fields) =
      replaced_child key v fields (replace_nodes_array vs v) (replace_in_children vs fields)

abbrev pub null_data : Json
null_data = object (field (bytes "data") null end)

abbrev with_data : Fields → Option Json → Json
with_data original none = null_data
with_data original (some v) = object (set_field (bytes "data") v original)

unfoldable pub rebuild_data : Fields → List Json → Option Json → Json
rebuild_data original vs none = null_data
rebuild_data original vs (some v) =
    if is_nil vs then null_data else with_data original (replace_nodes_array vs v)

unfoldable pub rebuild_graphql_response : Json → List Json → Json
rebuild_graphql_response (object original) vs =
    rebuild_data original vs (lookup (bytes "data") (entries original))
rebuild_graphql_response other vs = null_data
