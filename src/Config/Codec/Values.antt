-- ===== src/Config/Codec/Values.antt =====
-- `json.Unmarshal` into strings, slices of strings and maps, and
-- `unmarshalStringListOrExpression` of internal/config/guard_policy.go.
use gh_aw_mcpg.Common.{Bool, List, [], eqb, if◌then◌else◌, is_nil, ltb, ℕ, ◌^◌, ◌||◌, ◌∷◌}
use gh_aw_mcpg.Common.Dict.{insert}
use gh_aw_mcpg.Common.Int.{negsuc, pos, ℤ}
use gh_aw_mcpg.Common.Json.{Json, array, elements, entries, integer, null, object, string}
use gh_aw_mcpg.Common.Result.{Result, err, ok, ◌>>=◌}
use gh_aw_mcpg.Common.Split.{fields_func}
use gh_aw_mcpg.Common.Text.{Str, str_eq, trim_space}
use gh_aw_mcpg.Config.Failure.{PolicyError}

-- into a map of raw messages
unfoldable pub decode_object : Json → Result PolicyError (List (Str × Json))
decode_object (object fields) = ok (entries fields)
decode_object null = ok []
decode_object other = err PolicyError.bad_type

-- into a string that has a value: null leaves it
unfoldable pub decode_string : Str → Json → Result PolicyError Str
decode_string old (string s) = ok s
decode_string old null = ok old
decode_string old other = err PolicyError.bad_type

unfoldable pub decode_items : List Json → Result PolicyError (List Str)
decode_items [] = ok []
decode_items (v ∷ vs) = do s ← decode_string [] v; rest ← decode_items vs; ok (s ∷ rest)

-- into a `[]string`
unfoldable pub decode_strings : Json → Result PolicyError (List Str)
decode_strings (array vs) = decode_items (elements vs)
decode_strings null = ok []
decode_strings other = err PolicyError.bad_type

-- an `int` has 64 bits
unfoldable pub decode_int : Json → Result PolicyError ℤ
decode_int (integer (pos n)) = if ltb n (2 ^ 63) then ok (pos n) else err PolicyError.bad_type
decode_int (integer (negsuc n)) = if ltb n (2 ^ 63) then ok (negsuc n) else err PolicyError.bad_type
decode_int null = ok (pos 0)
decode_int other = err PolicyError.bad_type

unfoldable pub decode_entries :
    List (Str × Json) → List (Str × ℤ) → Result PolicyError (List (Str × ℤ))
decode_entries [] out = ok out
decode_entries ((key, value) ∷ m) out = do n ← decode_int value; decode_entries m (insert key n out)

-- into a `map[string]int` that may hold entries
unfoldable pub decode_limits : List (Str × ℤ) → Json → Result PolicyError (List (Str × ℤ))
decode_limits old (object fields) = decode_entries (entries fields) old
decode_limits old null = ok []
decode_limits old other = err PolicyError.bad_type

abbrev pub is_separator : ℕ → Bool
is_separator c = eqb c b',' || eqb c b'\n'

-- the loop that trims the parts and skips those that are blank
unfoldable pub trim_parts : List Str → List Str
trim_parts [] = []
trim_parts (part ∷ parts) =
    let trimmed = trim_space part in
    let rest = trim_parts parts in if is_nil trimmed then rest else trimmed ∷ rest

abbrev some_label : List Str → Result PolicyError (List Str)
some_label [] = err PolicyError.no_label
some_label (label ∷ labels) = ok (label ∷ labels)

unfoldable pub string_list_or_expression : Json → Result PolicyError (List Str)
unfolding trim_parts
string_list_or_expression (string expression) =
    some_label (trim_parts (fields_func is_separator expression))
string_list_or_expression value = decode_strings value
