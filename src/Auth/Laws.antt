-- ===== src/Auth/Laws.antt =====
-- No session of internal/auth/header.go has a byte that a header may not have.
use gh_aw_mcpg.Auth.{
  extract_session_id, extract_session_id_from_headers, first_scheme, is_bad_byte,
  is_malformed_header, strip_auth_scheme, supported_auth_schemes,
}
use gh_aw_mcpg.Common.{Option-cases, ap, arith, false, inl, inr, some, ◌∙◌, ◌≡◌}
use gh_aw_mcpg.Common.Text.{Str, any_byte, bytes, str_eq, strip_prefix}
use gh_aw_mcpg.Common.Text.Laws.{any_byte-strip_prefix, any_byte-trim_space}

strip_auth_scheme-any_byte :
    (header scheme rest : Str)
    → strip_auth_scheme header ≡ some (scheme, rest)
    → any_byte is_bad_byte header ≡ false
    → any_byte is_bad_byte rest ≡ false
unfolding strip_auth_scheme first_scheme supported_auth_schemes
strip_auth_scheme-any_byte header scheme rest e h =
    elim (Option-cases (strip_prefix (bytes "Bearer ") header)) [
      | inr (found, f) ↦
          let same : found ≡ rest = ground arith in
          any_byte-strip_prefix is_bad_byte (bytes "Bearer ") header rest (f ∙ ap some same) h
      | inl no_bearer ↦ elim (Option-cases (strip_prefix (bytes "Agent ") header)) [
        | inl none_fits ↦ ground arith
        | inr (found, f) ↦
            let same : found ≡ rest = ground arith in
            any_byte-strip_prefix is_bad_byte (bytes "Agent ") header rest (f ∙ ap some same) h
      ]
    ]

extract_session_id-any_byte :
    (header : Str)
    → any_byte is_bad_byte header ≡ false
    → any_byte is_bad_byte (extract_session_id header) ≡ false
unfolding extract_session_id
extract_session_id-any_byte header h = elim (Option-cases (strip_auth_scheme header)) [
  | inl e ↦ ground arith
  | inr ((scheme, rest), e) ↦
      let clean = strip_auth_scheme-any_byte header scheme rest e h in
      ground (arith, any_byte-trim_space is_bad_byte rest)
]

pub extract_session_id_from_headers-any_byte :
    (agent_id header : Str)
    → any_byte is_bad_byte (extract_session_id_from_headers agent_id header) ≡ false
unfolding extract_session_id_from_headers is_malformed_header any_byte
extract_session_id_from_headers-any_byte agent_id header =
    ground (arith, extract_session_id-any_byte header)
