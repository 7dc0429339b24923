-- ===== src/Proxy/Response/Laws.antt =====
-- What the functions of internal/proxy/response_transform.go keep of a response, and what they replace.
use gh_aw_mcpg.Common.{
  Bool-cases, List, Option, [], ap, arith, false, has_key, if◌then◌else◌, inl, inr, refl, some,
  true, ◌==◌, ◌∙◌, ◌∷◌, ◌≡◌,
}
use gh_aw_mcpg.Common.Dict.{insert, lookup, lookup-insert}
use gh_aw_mcpg.Common.Json.{Fields, Items, Json, array, boolean, elements, entries, object}
use gh_aw_mcpg.Common.Text.{Str, bytes, str_beq, str_eq}
use gh_aw_mcpg.Config.Codec.RoundTrip.{entries-to_fields}
use gh_aw_mcpg.Proxy.Response.{
  array_of, count_of, has_field, replace_nodes_array, rewrap_search_response, search_envelope,
  set_field, set_search_items, set_total_count,
}

-- the key of the list that a search gives: the items, or else the repositories
abbrev pub list_key : Fields → Str
list_key original =
    if has_field (bytes "items") original then bytes "items" else bytes "repositories"

-- the keys that the envelope of a search sets
abbrev pub search_keys : Fields → List Str
search_keys original = list_key original ∷ bytes "total_count" ∷ bytes "incomplete_results" ∷ []

lookup-set_field :
    (written key : Str) (v : Json) (fields : Fields)
    → lookup key (entries (set_field written v fields))
      ≡ (if written == key then some v else lookup key (entries fields))
lookup-set_field written key v fields =
    ap (lookup key) (entries-to_fields (insert written v (entries fields)))
    ∙ lookup-insert written key v (entries fields)

has_field-lookup :
    (key : Str) (fields : Fields) (v : Json)
    → lookup key (entries fields) ≡ some v
    → has_field key fields ≡ true
has_field-lookup key fields v h = ground arith

set_search_items-list_key :
    (original : Fields) (vs : List Json) (listed : Json)
    → lookup (list_key original) (entries original) ≡ some listed
    → set_search_items vs original ≡ set_field (list_key original) (array_of vs) original
set_search_items-list_key original vs listed h =
    elim (Bool-cases (has_field (bytes "items") original)) [
      | inl with_items ↦ rw with_items refl
      | inr without ↦
          let there : lookup (bytes "repositories") (entries original) ≡ some listed =
            ground arith in
          rw (without, has_field-lookup (bytes "repositories") original listed there) refl
    ]

lookup-search_envelope :
    (original : Fields) (vs : List Json) (listed : Json) (key : Str)
    → lookup (list_key original) (entries original) ≡ some listed
    → lookup key (entries (search_envelope vs original)) ≡ (
        if bytes "incomplete_results" == key
        then some (boolean false)
        else if bytes "total_count" == key
        then some (count_of vs)
        else if list_key original == key
        then some (array_of vs)
        else lookup key (entries original))
unfolding search_envelope
lookup-search_envelope original vs listed key h =
    let list_set = set_field (list_key original) (array_of vs) original in
    let count_set = set_field (bytes "total_count") (count_of vs) list_set in
    rw (set_search_items-list_key original vs listed h) (
      lookup-set_field (bytes "incomplete_results") key (boolean false) count_set
      ∙ ap (λ rest. if bytes "incomplete_results" == key then some (boolean false) else rest)
          (lookup-set_field (bytes "total_count") key (count_of vs) list_set
            ∙ ap (λ rest. if bytes "total_count" == key then some (count_of vs) else rest)
                (lookup-set_field (list_key original) key (array_of vs) original)))

set_by_none :
    (original : Fields) (key : Str)
    → has_key (search_keys original) key ≡ false
    → (flag count list rest : Option Json)
    → (if bytes "incomplete_results" == key
        then flag
        else if bytes "total_count" == key
        then count
        else if list_key original == key
        then list
        else rest)
      ≡ rest
unfolding has_key
set_by_none original key h flag count list rest = ground arith

set_list :
    (original : Fields) (flag count list rest : Option Json)
    → (if bytes "incomplete_results" == list_key original
        then flag
        else if bytes "total_count" == list_key original
        then count
        else if list_key original == list_key original
        then list
        else rest)
      ≡ list
unfolding str_beq
set_list original flag count list rest = elim (Bool-cases (has_field (bytes "items") original)) [
  | inl with_items ↦ rw with_items refl
  | inr without ↦ rw without refl
]

-- Of a response with a total count and with items, or without items and with repositories, that list
-- is replaced by the filtered one, the count is that of the filtered list, the results are said to be
-- complete, and every other field stays, the repositories beside items included.
pub rewrap_search_response-search :
    (original : Fields) (vs : Items) (total listed : Json) (key : Str)
    → lookup (bytes "total_count") (entries original) ≡ some total
    → lookup (list_key original) (entries original) ≡ some listed
    → has_key (search_keys original) key ≡ false
    → (out : Fields) × (rewrap_search_response (object original) (array vs) ≡ object out)
      × (lookup (list_key original) (entries out) ≡ some (array_of (elements vs)))
      × (lookup (bytes "total_count") (entries out) ≡ some (count_of (elements vs)))
      × (lookup (bytes "incomplete_results") (entries out) ≡ some (boolean false))
      × (lookup key (entries out) ≡ lookup key (entries original))
unfolding rewrap_search_response str_beq
rewrap_search_response-search original vs total listed key t i other =
    let at = λ (k : Str). lookup-search_envelope original (elements vs) listed k i in
    (
      search_envelope (elements vs) original,
      ground arith,
      at (list_key original) ∙ set_list original _ _ _ _,
      at (bytes "total_count"),
      at (bytes "incomplete_results"),
      at key ∙ set_by_none original key other _ _ _ _,
    )

-- An object with both nodes and edges gets the filtered items as its nodes, and keeps its edges as they
-- came from the backend.
pub replace_nodes_array-edges :
    (fields : Fields) (vs : List Json) (nodes : Json)
    → lookup (bytes "nodes") (entries fields) ≡ some nodes
    → (out : Fields) × (replace_nodes_array vs (object fields) ≡ some (object out))
      × (lookup (bytes "nodes") (entries out) ≡ some (array_of vs))
      × (lookup (bytes "edges") (entries out) ≡ lookup (bytes "edges") (entries fields))
unfolding replace_nodes_array str_beq
replace_nodes_array-edges fields vs nodes h =
    let changed = set_field (bytes "nodes") (array_of vs) fields in
    let at_changed = λ (key : Str). lookup-set_field (bytes "nodes") key (array_of vs) fields in
    let at = λ (key : Str). lookup-set_field (bytes "totalCount") key (count_of vs) changed in
    (
      set_total_count vs changed,
      ground arith,
      ground (arith, at (bytes "nodes"), at_changed (bytes "nodes")),
      ground (arith, at (bytes "edges"), at_changed (bytes "edges")),
    )
