-- ===== src/Difc/SinkServers.antt =====
-- The servers whose logs carry labels: internal/difc/sink_server_ids.go, with `DeduplicateStrings` of
-- internal/util/collections.go.
pub mod Laws
use gh_aw_mcpg.Common.{
  Bool, List, Option, [], arith, eqb, false, has_key, if◌then◌else◌, insert_key, is_nil, none, refl,
  some, true, ℕ, ◌||◌, ◌∷◌,
}
use gh_aw_mcpg.Common.Order.{sort_strings}
use gh_aw_mcpg.Common.Split.{split}
use gh_aw_mcpg.Common.Text.{Str, any_byte, str_eq, trim_space}

-- the loop of `DeduplicateStrings` after the entries that were seen, which are those kept
unfoldable pub deduplicate_loop : List Str → List Str → List Str
deduplicate_loop [] out = out
deduplicate_loop (s ∷ ss) out =
    let trimmed = trim_space s in
    if is_nil trimmed then deduplicate_loop ss out else deduplicate_loop ss (insert_key trimmed out)

unfoldable pub deduplicate_strings : List Str → Bool → List Str
deduplicate_strings ss sorted =
    let out = deduplicate_loop ss [] in if sorted then sort_strings out else out

-- the list after `SetSinkServerIDs`
unfoldable pub set_sink_server_ids : List Str → List Str
set_sink_server_ids ids = if is_nil ids then [] else deduplicate_strings ids true

unfoldable pub is_sink_server_id : List Str → Str → Bool
is_sink_server_id configured id = has_key configured id

abbrev pub is_blank : ℕ → Bool
is_blank c = eqb c b' ' || eqb c b'\t' || eqb c b'\n' || eqb c b'\r'

-- the loop over the parts; `none` is the error on white space
unfoldable pub validated_ids : List Str → Option (List Str)
validated_ids [] = some []
validated_ids (part ∷ parts) =
    let trimmed = trim_space part in
    let rest = validated_ids parts in
    if is_nil trimmed
    then rest
    else if any_byte is_blank trimmed
    then none
    else elim rest [ none ↦ none | some ids ↦ some (trimmed ∷ ids) ]

unfoldable pub parse_sink_server_ids : Str → Option (List Str)
parse_sink_server_ids input =
    if is_nil (trim_space input) then some [] else elim (validated_ids (split b',' input)) [
      | none ↦ none
      | some ids ↦ some (deduplicate_strings ids false)
    ]
