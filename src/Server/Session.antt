-- ===== src/Server/Session.antt =====
-- The session of a request: internal/server/session.go, up to the context that carries it.
pub mod Laws
use gh_aw_mcpg.Auth.{extract_session_id_from_headers}
use gh_aw_mcpg.Common.{
  Bool, Option, [], arith, false, if◌then◌else◌, is_nil, none, not, refl, some, true, ◌&&◌, ◌==◌,
  ◌||◌, ◌∷◌,
}
use gh_aw_mcpg.Common.Text.{Str, bytes, has_byte, has_prefix, str_eq}

-- `filepath.Base` and `filepath.Clean` on Unix, for a text without a slash
abbrev base_or_clean : Str → Str
base_or_clean [] = bytes "."
base_or_clean (c ∷ s) = c ∷ s

unfoldable pub is_single_path_segment_session_id : Str → Bool
is_single_path_segment_session_id id =
    not (is_nil id || id == bytes "." || id == bytes "..")
    && not (has_prefix (b'/' ∷ []) id)
    && not (has_byte b'/' id || has_byte b'\\' id)
    && base_or_clean id == id

unfoldable pub extract_session_id_from_request : Str → Str → Str
extract_session_id_from_request agent_id header = extract_session_id_from_headers agent_id header

-- the empty text is a request that is rejected
unfoldable pub extract_and_validate_session : Str → Str → Str
extract_and_validate_session agent_id header =
    let id = extract_session_id_from_request agent_id header in
    if is_nil id || not (is_single_path_segment_session_id id) then [] else id

-- `SessionIDFromContext`, for a value that may be missing or not a string
unfoldable pub session_id_from_context : Option Str → Str
session_id_from_context none = bytes "default"
session_id_from_context (some id) = if is_nil id then bytes "default" else id

-- the session of a request and whether it was accepted, as `setupSessionCallback` gives it
unfoldable pub setup_session_callback : Str → Str → Str × Bool
setup_session_callback agent_id header =
    let id = extract_and_validate_session agent_id header in
    if is_nil id then ([], false) else (id, true)
