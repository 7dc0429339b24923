-- ===== src/Tests/Proxying.antt =====
-- Runs of the proxy, and of the reader of rate limits.
use gh_aw_mcpg.Auth.{
  extract_agent_id, extract_session_id, extract_session_id_from_headers, first_scheme,
  is_malformed_header, parse_auth_header, strip_auth_scheme, supported_auth_schemes,
  validate_agent_id,
}
use gh_aw_mcpg.Common.{
  List, Option, [], arith, false, has_key, is_nil, none, refl, some, true, ℕ, ◌*◌, ◌<◌, ◌∷◌, ◌≡◌,
  ◌≤◌, ◌⊎◌,
}
use gh_aw_mcpg.Common.Decimal.{atoi, digits_from}
use gh_aw_mcpg.Common.Dict.{insert, lookup}
use gh_aw_mcpg.Common.Int.{negsuc, pos}
use gh_aw_mcpg.Common.Json.{
  Fields, Json, array, boolean, end, entries, field, integer, null, object, string, to_fields,
  to_items,
}
use gh_aw_mcpg.Common.Split.{cut_at, ends_with, has_substring, init, trim_suffix}
use gh_aw_mcpg.Common.Text.{
  Str, any_byte, bytes, has_byte, has_prefix, join, str_beq, str_eq, strip_prefix, to_lower,
  trim_space,
}
use gh_aw_mcpg.Mcp.Result.{
  content_text, extract_text_content, is_text_type, joined_text, normalize_content_items,
  string_or_empty,
}
use gh_aw_mcpg.Proxy.Response.{
  array_of, count_of, deep_equal, rebuild_data, rebuild_graphql_response, replace_nodes_array,
  rewrap_search_response, unwrap_single_object,
}
use gh_aw_mcpg.Proxy.Response.Laws.{
  list_key, replace_nodes_array-edges, rewrap_search_response-search,
}
use gh_aw_mcpg.Proxy.Router.{RouteMatch, first_alternative, match_pieces, span, submatch}
use gh_aw_mcpg.Proxy.Router.Dispatch.{
  after_slash, bucket, build_route_dispatch, dispatch_key, dispatch_loop, first_match,
  first_segment, fixed_segment, match_in, match_route, or_next, repo_key, route_match_key,
  strip_gh_host_prefix, try_match, without_query,
}
use gh_aw_mcpg.Proxy.Router.Dispatch.Laws.{match_route-first_match}
use gh_aw_mcpg.Proxy.Router.Routes.{routes}
use gh_aw_mcpg.Proxy.Router.Services.{actions_config_routes, user_routes}
use gh_aw_mcpg.Server.RateLimit.{
  after_part, before_end, extract_rate_limit_error_text, is_rate_limit_text,
  is_rate_limit_tool_result, parse_end, parse_rate_limit_reset_from_text,
  parse_rate_limit_reset_header, positive_seconds, seconds, skip,
}
use gh_aw_mcpg.Server.RateLimit.Laws.{positive_seconds-sign}
use gh_aw_mcpg.Server.Session.{
  extract_and_validate_session, extract_session_id_from_request, is_single_path_segment_session_id,
  session_id_from_context, setup_session_callback,
}
use gh_aw_mcpg.Server.Session.Laws.{IsPathSegment, extract_and_validate_session-IsPathSegment}

comments_matched :
    match_route (bytes "/repos/o/r/issues/5/comments?page=2")
    ≡ some (record {
      tool_name = bytes "issue_read";
      owner = bytes "o";
      repo = bytes "r";
      args =
          (bytes "owner", bytes "o")
          ∷ (bytes "repo", bytes "r")
          ∷ (bytes "issue_number", bytes "5")
          ∷ (bytes "method", bytes "get_comments")
          ∷ [];
    })
unfolding match_route match_in without_query cut_at route_match_key repo_key after_slash
    first_segment build_route_dispatch dispatch_loop bucket dispatch_key fixed_segment span
    strip_prefix lookup insert str_beq join first_match try_match or_next match_pieces submatch
    has_byte
comments_matched = refl

abbrev tool_of : Option RouteMatch → Str
tool_of none = []
tool_of (some m) = m.tool_name

variables_matched :
    tool_of (first_match (bytes "/repos/o/r/actions/variables/V") actions_config_routes)
    ≡ bytes "actions_list"
unfolding first_match try_match or_next match_pieces span strip_prefix
variables_matched = refl

keys_matched : tool_of (first_match (bytes "/user/gpg_keys") user_routes) ≡ bytes "get_me"
unfolding first_match try_match or_next match_pieces first_alternative span strip_prefix
keys_matched = refl

host_stripped : strip_gh_host_prefix (bytes "/api/v3/user") ≡ bytes "/user"
unfolding strip_gh_host_prefix strip_prefix
host_stripped = refl

match_route-first_match_example :
    match_route (bytes "/repos/o/r/pulls?x")
    ≡ first_match (without_query (bytes "/repos/o/r/pulls?x")) routes
match_route-first_match_example = match_route-first_match (bytes "/repos/o/r/pulls?x")

abbrev one_allowed : List Json
one_allowed = string (bytes "public") ∷ []

abbrev both_lists : Fields
both_lists =
    field (bytes "nodes") (array (to_items one_allowed))
      (field (bytes "edges") (array (to_items (string (bytes "secret") ∷ []))) end)

replace_nodes_array-edges_example :
    (out : Fields) × (replace_nodes_array one_allowed (object both_lists) ≡ some (object out))
    × (lookup (bytes "nodes") (entries out) ≡ some (array_of one_allowed))
    × (lookup (bytes "edges") (entries out) ≡ lookup (bytes "edges") (entries both_lists))
unfolding lookup str_beq
replace_nodes_array-edges_example =
    replace_nodes_array-edges both_lists one_allowed (array (to_items one_allowed)) refl

graphql_rebuilt :
    rebuild_graphql_response
      (object (
        field
          (bytes "data")
          (object (field (bytes "viewer") null (field (bytes "issues") (object both_lists) end)))
          end))
      one_allowed
    ≡ object (
        field
          (bytes "data")
          (object (field (bytes "viewer") null (field (bytes "issues") (object both_lists) end)))
          end)
unfolding rebuild_graphql_response rebuild_data replace_nodes_array lookup insert str_beq
graphql_rebuilt = refl

object_unwrapped :
    unwrap_single_object (object end) (array (to_items one_allowed)) ≡ string (bytes "public")
unfolding unwrap_single_object lookup
object_unwrapped = refl

array_restored :
    unwrap_single_object
      (array (to_items one_allowed))
      (array (to_items (array (to_items one_allowed) ∷ [])))
    ≡ array (to_items one_allowed)
unfolding unwrap_single_object deep_equal str_beq
array_restored = refl

abbrev search_response : Fields
search_response =
    field (bytes "total_count") (integer (pos 2))
      (field (bytes "items") (array (to_items (null ∷ null ∷ []))) end)

rewrap_search_response-search_example :
    (out : Fields) × (rewrap_search_response (object search_response) (array (to_items one_allowed))
      ≡ object out)
    × (lookup (list_key search_response) (entries out) ≡ some (array_of one_allowed))
    × (lookup (bytes "total_count") (entries out) ≡ some (count_of one_allowed))
    × (lookup (bytes "incomplete_results") (entries out) ≡ some (boolean false))
    × (lookup (bytes "text") (entries out) ≡ lookup (bytes "text") (entries search_response))
unfolding lookup str_beq has_key
rewrap_search_response-search_example =
    rewrap_search_response-search search_response (to_items one_allowed) (integer (pos 2))
      (array (to_items (null ∷ null ∷ []))) (bytes "text") refl refl refl

abbrev limited_result : Json
limited_result = object (
    to_fields (
      (bytes "isError", boolean true)
      ∷ (
        bytes "content",
        array (
            to_items (
              object (
                field (bytes "text") (string (bytes "API rate limit exceeded [rate reset in 42s]"))
                  end)
              ∷ [])),
      )
      ∷ []))

limit_found : is_rate_limit_tool_result limited_result ≡ (true, some (pos 42000000000))
unfolding is_rate_limit_tool_result extract_text_content content_text normalize_content_items
    joined_text is_text_type string_or_empty is_rate_limit_text has_substring has_prefix
    strip_prefix to_lower parse_rate_limit_reset_from_text after_part skip before_end parse_end
    positive_seconds seconds atoi digits_from trim_space lookup str_beq
limit_found = refl

limit_text :
    extract_rate_limit_error_text limited_result
    ≡ bytes "API rate limit exceeded [rate reset in 42s]"
unfolding extract_rate_limit_error_text extract_text_content content_text normalize_content_items
    joined_text is_text_type string_or_empty lookup str_beq
limit_text = refl

header_parsed : parse_rate_limit_reset_header (bytes " 1700000000") ≡ some (pos 1700000000)
unfolding parse_rate_limit_reset_header atoi digits_from trim_space
header_parsed = refl

positive_seconds-sign_example :
    ((10000000000 ≤ 9223372036)
      × (positive_seconds (some (pos 10000000000)) ≡ some (pos (10000000000 * 1000000000))))
    ⊎ ((n : ℕ) × (9223372036 < 10000000000)
        × (positive_seconds (some (pos 10000000000)) ≡ some (negsuc n)))
positive_seconds-sign_example = positive_seconds-sign 10000000000 (omega arith) (omega arith)

header_parsed_bearer : parse_auth_header (bytes "Bearer k") ≡ some (bytes "k", bytes "k")
unfolding parse_auth_header strip_auth_scheme first_scheme supported_auth_schemes strip_prefix
    trim_suffix ends_with init
header_parsed_bearer = refl

agent_extracted : extract_agent_id [] ≡ bytes "default"
unfolding extract_agent_id parse_auth_header
agent_extracted = refl

agent_refused : validate_agent_id (bytes "a") (bytes "b") ≡ false
unfolding validate_agent_id str_beq
agent_refused = refl

session_refused : setup_session_callback (bytes "../x") [] ≡ ([], false)
unfolding setup_session_callback extract_and_validate_session extract_session_id_from_request
    extract_session_id_from_headers is_malformed_header any_byte is_single_path_segment_session_id
    has_prefix strip_prefix has_byte str_beq
session_refused = refl

session_defaulted : session_id_from_context none ≡ bytes "default"
unfolding session_id_from_context
session_defaulted = refl

session_accepted : is_nil (extract_and_validate_session [] (bytes "Bearer  s1 ")) ≡ false
unfolding extract_and_validate_session extract_session_id_from_request
    extract_session_id_from_headers extract_session_id strip_auth_scheme first_scheme
    supported_auth_schemes trim_suffix ends_with init trim_space is_malformed_header any_byte
    is_single_path_segment_session_id has_prefix strip_prefix has_byte str_beq
session_accepted = refl

extract_and_validate_session-IsPathSegment_example :
    IsPathSegment (extract_and_validate_session [] (bytes "Bearer  s1 "))
extract_and_validate_session-IsPathSegment_example =
    extract_and_validate_session-IsPathSegment [] (bytes "Bearer  s1 ") session_accepted
