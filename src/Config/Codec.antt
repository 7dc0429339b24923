-- ===== src/Config/Codec.antt =====
-- Guard policies as JSON: internal/config/guard_policy.go. The JSON values stand for their texts. An
-- empty slice and a nil slice are not told apart, and a null in an array of strings is the empty
-- string.
pub mod Values
pub mod Encode
pub mod RoundTrip
use gh_aw_mcpg.Common.{
  Bool, List, Option, [], arith, false, if◌then◌else◌, none, not, refl, some, true, ◌==◌, ◌||◌, ◌∷◌,
}
use gh_aw_mcpg.Common.Json.{Json, null}
use gh_aw_mcpg.Common.Result.{Result, check, err, ok, ◌>>=◌, ◌>>◌}
use gh_aw_mcpg.Common.Text.{Str, bytes, str_eq, to_lower, trim_space}
use gh_aw_mcpg.Config.Build.{allow_only_of}
use gh_aw_mcpg.Config.Codec.Values.{
  decode_limits, decode_object, decode_string, decode_strings, string_list_or_expression,
}
use gh_aw_mcpg.Config.Failure.{
  PolicyError, both_policies, missing_key, missing_repos, non_empty_string, unsupported_field,
}
use gh_aw_mcpg.Config.Policy.{AllowOnlyPolicy, GuardPolicy, Repos, decoded}
use gh_aw_mcpg.Config.Sink.{WriteSinkPolicy}

-- the zero value of `AllowOnlyPolicy`
abbrev pub zero_policy : AllowOnlyPolicy
zero_policy = allow_only_of (decoded null) []

-- one round of the loop in `AllowOnlyPolicy.UnmarshalJSON`, for the key in lower case
unfoldable pub decode_field : Str → Json → AllowOnlyPolicy → Result PolicyError AllowOnlyPolicy
decode_field key value p =
    if key == bytes "repos"
    then ok (record p { repos = decoded value })
    else if key == bytes "min-integrity" || key == bytes "integrity"
    then (do v ← decode_string p.min_integrity value; ok (record p { min_integrity = v }))
    else if key == bytes "tool-call-limits"
    then (do v ← decode_limits p.tool_call_limits value; ok (record p { tool_call_limits = v }))
    else if key == bytes "blocked-users"
    then (do v ← decode_strings value; ok (record p { blocked_users = v }))
    else if key == bytes "refusal-labels"
    then (do v ← string_list_or_expression value; ok (record p { refusal_labels = v }))
    else if key == bytes "approval-labels"
    then (do v ← decode_strings value; ok (record p { approval_labels = v }))
    else if key == bytes "trusted-users"
    then (do v ← decode_strings value; ok (record p { trusted_users = v }))
    else if key == bytes "endorsement-reactions"
    then (do v ← decode_strings value; ok (record p { endorsement_reactions = v }))
    else if key == bytes "disapproval-reactions"
    then (do v ← decode_strings value; ok (record p { disapproval_reactions = v }))
    else if key == bytes "disapproval-integrity"
    then (do
      v ← decode_string p.disapproval_integrity value
      ok (record p { disapproval_integrity = v }))
    else if key == bytes "endorser-min-integrity"
    then (do
      v ← decode_string p.endorser_min_integrity value
      ok (record p { endorser_min_integrity = v }))
    else if key == bytes "promotion-label"
    then (do v ← decode_string p.promotion_label value; ok (record p { promotion_label = v }))
    else if key == bytes "demotion-label"
    then (do v ← decode_string p.demotion_label value; ok (record p { demotion_label = v }))
    else err PolicyError.unsupported_field

-- the loop, in the order in which the map is iterated over
unfoldable pub decode_loop :
    List (Str × Json) → AllowOnlyPolicy → Result PolicyError AllowOnlyPolicy
decode_loop [] p = ok p
decode_loop ((key, value) ∷ m) p = do q ← decode_field (to_lower key) value p; decode_loop m q

abbrev is_nil_repos : Repos → Bool
is_nil_repos (decoded null) = true
is_nil_repos _ = false

-- `AllowOnlyPolicy.UnmarshalJSON`, into the zero value
unfoldable pub decode_allow_only : Json → Result PolicyError AllowOnlyPolicy
decode_allow_only value = do
  raw ← decode_object value
  p ← decode_loop raw zero_policy
  check (not (is_nil_repos p.repos)) PolicyError.missing_repos
  non_empty_string (trim_space p.min_integrity)
  ok p

-- the standard decoding of `WriteSinkPolicy`: names match up to case, other fields are skipped
pub decode_sink_fields : List (Str × Json) → WriteSinkPolicy → Result PolicyError WriteSinkPolicy
decode_sink_fields [] ws = ok ws
decode_sink_fields ((key, value) ∷ m) ws =
    let name = to_lower key in
    let accept = (do v ← decode_strings value; decode_sink_fields m (record ws { accept = v })) in
    let visibility = (do
      v ← decode_string ws.sink_visibility value
      decode_sink_fields m (record ws { sink_visibility = v })) in
    let skip = decode_sink_fields m ws in
    if name == bytes "accept"
    then accept
    else if name == bytes "sink-visibility"
    then visibility
    else skip

pub decode_write_sink : Json → Result PolicyError WriteSinkPolicy
decode_write_sink value = do
  raw ← decode_object value
  decode_sink_fields raw (record { accept = []; sink_visibility = [] })

-- the loop of `GuardPolicy.UnmarshalJSON` that finds the two raw messages
unfoldable pub find_messages :
    List (Str × Json) → Option Json → Option Json → Result PolicyError (Option Json × Option Json)
find_messages [] allow_only write_sink = ok (allow_only, write_sink)
find_messages ((key, value) ∷ m) allow_only write_sink =
    let name = to_lower key in
    let first = find_messages m (some value) write_sink in
    let second = find_messages m allow_only (some value) in
    if name == bytes "allow-only" || name == bytes "allowonly"
    then first
    else if name == bytes "write-sink" || name == bytes "writesink"
    then second
    else err PolicyError.unsupported_field

unfoldable pub decode_messages : Option Json → Option Json → Result PolicyError GuardPolicy
decode_messages none none = err PolicyError.missing_key
decode_messages (some a) (some w) = err PolicyError.both_policies
decode_messages (some a) none = do
  p ← decode_allow_only a
  ok (record { allow_only = some p; write_sink = none })
decode_messages none (some w) = do
  ws ← decode_write_sink w
  ok (record { allow_only = none; write_sink = some ws })

-- `GuardPolicy.UnmarshalJSON`
unfoldable pub decode_guard_policy : Json → Result PolicyError GuardPolicy
decode_guard_policy value = do
  raw ← decode_object value
  found ← find_messages raw none none
  decode_messages found.0 found.1
