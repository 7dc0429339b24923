-- ===== src/Server/Session/Laws.antt =====
-- The name of a session is safe as the name of a directory: one element of a path, which stays below the
-- directory it is joined to (internal/server/session.go and internal/auth/header.go).
use gh_aw_mcpg.Auth.{is_bad_byte, is_malformed_header}
use gh_aw_mcpg.Auth.Laws.{extract_session_id_from_headers-any_byte}
use gh_aw_mcpg.Common.{All, [], arith, false, is_nil, ℕ, ◌==◌, ◌∷◌, ◌≡◌, ◌≢◌, ◌≤◌, ◌⊎◌}
use gh_aw_mcpg.Common.Text.{Str, any_byte, bytes, has_byte, str_eq}
use gh_aw_mcpg.Server.Session.{
  extract_and_validate_session, extract_session_id_from_request, is_single_path_segment_session_id,
}

-- a byte that is no control byte but the tab
abbrev pub IsHeaderByte : ℕ → Type 0
IsHeaderByte c = (c ≡ 9) ⊎ ((32 ≤ c) × (c ≢ 127))

abbrev pub IsPathSegment : Str → Type 0
IsPathSegment id =
    (has_byte b'/' id ≡ false)
    × (has_byte b'\\' id ≡ false)
    × ((id == bytes ".") ≡ false)
    × ((id == bytes "..") ≡ false)
    × All IsHeaderByte id

All-IsHeaderByte : (s : Str) → any_byte is_bad_byte s ≡ false → All IsHeaderByte s
unfolding any_byte
All-IsHeaderByte [] h = tt
All-IsHeaderByte (c ∷ s) h = (ground arith, All-IsHeaderByte s (ground arith))

-- A session that is accepted is one element of a path, neither the directory itself nor the one above,
-- without separators, and without control bytes but the tab.
pub extract_and_validate_session-IsPathSegment :
    (agent_id header : Str)
    → is_nil (extract_and_validate_session agent_id header) ≡ false
    → IsPathSegment (extract_and_validate_session agent_id header)
unfolding extract_and_validate_session extract_session_id_from_request
    is_single_path_segment_session_id is_malformed_header
extract_and_validate_session-IsPathSegment agent_id header h =
    let clean = extract_session_id_from_headers-any_byte agent_id header in
    (
      ground arith,
      ground arith,
      ground arith,
      ground arith,
      All-IsHeaderByte (extract_and_validate_session agent_id header) (ground arith),
    )
