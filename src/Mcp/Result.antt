-- ===== src/Mcp/Result.antt =====
-- The text of an MCP result: internal/mcpresult/mcpresult.go. A result is a decoded JSON value, so its
-- content is never of the type `[]map[string]interface{}`.
use gh_aw_mcpg.Common.{
  Bool, List, Option, [], if◌then◌else◌, none, not, some, ◌++◌, ◌==◌, ◌||◌, ◌∷◌,
}
use gh_aw_mcpg.Common.Dict.{lookup}
use gh_aw_mcpg.Common.Json.{Json, array, elements, entries, object, string}
use gh_aw_mcpg.Common.Text.{Str, bytes, str_eq}

-- the loop over the items
abbrev only_maps : List Json → List (List (Str × Json))
only_maps [] = []
only_maps (object fields ∷ vs) = entries fields ∷ only_maps vs
only_maps (other ∷ vs) = only_maps vs

unfoldable pub normalize_content_items : Json → Option (List (List (Str × Json)))
normalize_content_items (array vs) = some (only_maps (elements vs))
normalize_content_items other = none

-- the assertion to a string, which gives the empty one for anything else
unfoldable pub string_or_empty : Option Json → Str
string_or_empty (some (string s)) = s
string_or_empty other = []

unfoldable pub is_text_type : Str → Bool
is_text_type kind = not (kind == bytes "image" || kind == bytes "audio" || kind == bytes "resource")

unfoldable pub joined_text : List (List (Str × Json)) → Str
joined_text [] = []
joined_text (item ∷ items) =
    let text = string_or_empty (lookup (bytes "text") item) in
    let rest = joined_text items in
    if is_text_type (string_or_empty (lookup (bytes "type") item)) then text ++ rest else rest

unfoldable pub content_text : Option (List (List (Str × Json))) → Str
content_text none = []
content_text (some items) = joined_text items

unfoldable pub extract_text_content : List (Str × Json) → Str
extract_text_content result = elim (lookup (bytes "content") result) [
  | none ↦ []
  | some content ↦ content_text (normalize_content_items content)
]
