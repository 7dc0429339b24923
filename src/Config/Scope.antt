-- ===== src/Config/Scope.antt =====
-- Repository scopes: the tokens, the shapes and the arrays that
-- internal/config/guard_policy_validation.go accepts.
pub mod Laws
pub mod Array
use gh_aw_mcpg.Common.{
  Bool, List, [], arith, eqb, false, has_key, if◌then◌else◌, insert_key, is_nil, leb, length, ltb,
  nat_eq, not, refl, true, ℕ, ◌&&◌, ◌++◌, ◌==◌, ◌||◌, ◌∷◌,
}
use gh_aw_mcpg.Common.Json.{Json, string}
use gh_aw_mcpg.Common.Order.{sort_strings}
use gh_aw_mcpg.Common.Result.{Result, check, err, ok, ◌>>=◌, ◌>>◌}
use gh_aw_mcpg.Common.Split.{count_byte, ends_with, split, trim_suffix}
use gh_aw_mcpg.Common.Text.{Str, bytes, str_eq, trim_space}
use gh_aw_mcpg.Config.Failure.{
  PolicyError, bad_scope, duplicate_scope, no_scopes, non_empty_string, scope_type,
}

unfoldable pub is_scope_token_char : ℕ → Bool
is_scope_token_char c =
    (leb b'a' c && leb c b'z') || (leb b'0' c && leb c b'9') || eqb c b'_' || eqb c b'-'

-- the loop of `isValidTokenString`
unfoldable pub token_bytes : Str → Bool
token_bytes [] = true
token_bytes (c ∷ s) = is_scope_token_char c && token_bytes s

unfoldable pub is_valid_token_string : Str → ℕ → Bool
is_valid_token_string s max_len =
    if leb (length s) 0 || ltb max_len (length s) then false else token_bytes s

unfoldable pub is_valid_repo_owner : Str → Bool
is_valid_repo_owner owner = is_valid_token_string owner 39

unfoldable pub is_valid_repo_name : Str → Bool
is_valid_repo_name repo = is_valid_token_string repo 100

-- what `isValidRepoScope` asks of the part behind the slash
unfoldable pub is_valid_repo_part : Str → Bool
is_valid_repo_part repo_part =
    let is_prefix_wildcard = ends_with b'*' repo_part in
    let repo_name = if is_prefix_wildcard then trim_suffix b'*' repo_part else repo_part in
    if repo_part == bytes "*"
    then true
    else if ltb 1 (count_byte b'*' repo_part)
    then false
    else if ltb 0 (count_byte b'*' repo_part) && not is_prefix_wildcard
    then false
    else if is_prefix_wildcard && is_nil repo_name
    then false
    else if not (is_valid_repo_name repo_name)
    then false
    else not (is_prefix_wildcard && ends_with b'.' repo_name)

-- the split of `isValidRepoScope`
unfoldable pub valid_parts : List Str → Bool
valid_parts (owner ∷ repo_part ∷ []) = is_valid_repo_owner owner && is_valid_repo_part repo_part
valid_parts _ = false

unfoldable pub is_valid_repo_scope : Str → Bool
is_valid_repo_scope scope = valid_parts (split b'/' scope)

-- the loop of `normalizeAndValidateScopeArray`, with `seen` and `normalized`
unfoldable pub scope_loop : List Json → List Str → List Str → Result PolicyError (List Str)
scope_loop [] seen normalized = ok normalized
scope_loop (string s ∷ scopes) seen normalized = do
  let scope = trim_space s
  non_empty_string scope
  check (is_valid_repo_scope scope) PolicyError.bad_scope
  check (not (has_key seen scope)) PolicyError.duplicate_scope
  scope_loop scopes (insert_key scope seen) (normalized ++ scope ∷ [])
scope_loop (other ∷ scopes) seen normalized = err PolicyError.scope_type

unfoldable pub normalize_and_validate_scope_array : List Json → Result PolicyError (List Str)
normalize_and_validate_scope_array [] = err PolicyError.no_scopes
normalize_and_validate_scope_array (scope ∷ scopes) = do
  normalized ← scope_loop (scope ∷ scopes) [] []
  ok (sort_strings normalized)
