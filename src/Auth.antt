-- ===== src/Auth.antt =====
-- The headers that name an agent: internal/auth/header.go.
pub mod Laws
use gh_aw_mcpg.Common.{
  Bool, List, Option, [], arith, eqb, if◌then◌else◌, is_nil, ltb, none, not, refl, some, ℕ, ◌&&◌,
  ◌==◌, ◌||◌, ◌∷◌,
}
use gh_aw_mcpg.Common.Split.{trim_suffix}
use gh_aw_mcpg.Common.Text.{Str, any_byte, bytes, str_eq, strip_prefix, trim_space}

unfoldable pub supported_auth_schemes : List Str
supported_auth_schemes = bytes "Bearer " ∷ bytes "Agent " ∷ []

-- the scheme without its space and the value, for the first prefix that fits
unfoldable pub first_scheme : List Str → Str → Option (Str × Str)
first_scheme [] header = none
first_scheme (prefix ∷ prefixes) header = elim (strip_prefix prefix header) [
  | none ↦ first_scheme prefixes header
  | some rest ↦ some (trim_suffix b' ' prefix, rest)
]

unfoldable pub strip_auth_scheme : Str → Option (Str × Str)
strip_auth_scheme header = first_scheme supported_auth_schemes header

-- the key and the agent; `none` is a missing header
unfoldable pub parse_auth_header : Str → Option (Str × Str)
parse_auth_header header = if is_nil header then none else elim (strip_auth_scheme header) [
  | none ↦ some (header, header)
  | some (scheme, rest) ↦ some (rest, rest)
]

unfoldable pub validate_agent_id : Str → Str → Bool
validate_agent_id provided expected = is_nil expected || provided == expected

unfoldable pub extract_agent_id : Str → Str
extract_agent_id header = elim (parse_auth_header header) [
  | none ↦ bytes "default"
  | some (key, agent) ↦ agent
]

unfoldable pub extract_session_id : Str → Str
extract_session_id header = elim (strip_auth_scheme header) [
  | none ↦ header
  | some (scheme, rest) ↦ if scheme == bytes "Bearer" then trim_space rest else rest
]

abbrev pub is_bad_byte : ℕ → Bool
is_bad_byte c = (ltb c 32 && not (eqb c 9)) || eqb c 127

unfoldable pub is_malformed_header : Str → Bool
is_malformed_header header = any_byte is_bad_byte header

unfoldable pub extract_session_id_from_headers : Str → Str → Str
extract_session_id_from_headers agent_id header =
    if not (is_nil agent_id)
    then (if is_malformed_header agent_id then [] else agent_id)
    else if is_malformed_header header
    then []
    else extract_session_id header
