-- ===== src/Tests/Rules.antt =====
-- Runs of the rules of the configuration and of the list of sink servers.
use gh_aw_mcpg.Common.{[], has_key, insert_key, none, refl, some, true, ◌↔◌, ◌∷◌, ◌≡◌}
use gh_aw_mcpg.Common.Int.{negsuc, pos}
use gh_aw_mcpg.Common.Order.{sort_strings, str_leb}
use gh_aw_mcpg.Common.Result.{err, ok}
use gh_aw_mcpg.Common.Split.{split}
use gh_aw_mcpg.Common.Text.{any_byte, bytes, has_prefix, str_beq, str_eq, strip_prefix, trim_space}
use gh_aw_mcpg.Config.Rules.{
  RuleError, absolute_path, mount_format, mount_parts_format, port_range, required_string_field,
  timeout_minimum, timeout_range, validate_positive_integer_rule,
}
use gh_aw_mcpg.Config.Rules.Mount.{IsMount, mount_format_iff}
use gh_aw_mcpg.Difc.SinkServers.{
  deduplicate_loop, deduplicate_strings, is_sink_server_id, parse_sink_server_ids,
  set_sink_server_ids, validated_ids,
}

ports : (port_range (pos 8080) ≡ ok tt) × (port_range (negsuc 0) ≡ err RuleError.bad_port)
unfolding port_range
ports = (refl, refl)

timeouts :
    (timeout_range (pos 5) (pos 1) (pos 9) ≡ ok tt)
    × (timeout_minimum (pos 5) (pos 10) ≡ err RuleError.below_minimum)
    × (validate_positive_integer_rule (pos 0) ≡ err RuleError.not_positive)
unfolding timeout_range timeout_minimum validate_positive_integer_rule
timeouts = (refl, refl, refl)

paths :
    (absolute_path (bytes "C:\\x") ≡ ok tt)
    × (absolute_path (bytes "x") ≡ err RuleError.relative_path)
    × (required_string_field [] ≡ err RuleError.missing_string)
unfolding absolute_path required_string_field has_prefix strip_prefix
paths = (refl, refl, refl)

mount_refused : mount_format (bytes "/a:b:ro") ≡ err RuleError.relative_dest
unfolding mount_format mount_parts_format split has_prefix strip_prefix
mount_refused = refl

mount_format_iff_example : (mount_format (bytes "/a:/b:ro") ≡ ok tt) ↔ IsMount (bytes "/a:/b:ro")
mount_format_iff_example = mount_format_iff (bytes "/a:/b:ro")

ids_parsed :
    (parse_sink_server_ids (bytes "a, b,a") ≡ some (bytes "a" ∷ bytes "b" ∷ []))
    × (parse_sink_server_ids (bytes "a b") ≡ none)
unfolding parse_sink_server_ids validated_ids deduplicate_strings deduplicate_loop insert_key split
    any_byte trim_space str_beq
ids_parsed = (refl, refl)

is_configured :
    is_sink_server_id (set_sink_server_ids (bytes " b " ∷ bytes "a" ∷ [])) (bytes "b") ≡ true
unfolding is_sink_server_id set_sink_server_ids deduplicate_strings deduplicate_loop insert_key
    has_key sort_strings str_leb trim_space str_beq
is_configured = refl
