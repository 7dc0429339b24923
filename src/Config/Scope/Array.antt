-- ===== src/Config/Scope/Array.antt =====
-- What `normalizeAndValidateScopeArray` returns.
use gh_aw_mcpg.Common.{
  All, All-append, Distinct, Fresh, Fresh-insert_key, Fresh-nil, List, [], ap, append-Distinct,
  arith, false, has_key, has_key-append, has_key-insert_key, inl, inr, insert_key, is_nil, length,
  length-append, refl, sym, true, ◌++◌, ◌+◌, ◌∙◌, ◌∷◌, ◌≡◌, ◌≤◌,
}
use gh_aw_mcpg.Common.Json.{Json, string}
use gh_aw_mcpg.Common.Order.{
  All-sort_strings, Sorted, length-sort_strings, sort_strings, sort_strings-Distinct,
  sort_strings-Sorted, sort_strings-Sorted_id,
}
use gh_aw_mcpg.Common.Result.{Result-cases, ok}
use gh_aw_mcpg.Common.Split.{split}
use gh_aw_mcpg.Common.Text.{Str, bytes, str_eq, trim_space}
use gh_aw_mcpg.Common.Text.Laws.{no_space, trim_space-no_space}
use gh_aw_mcpg.Config.Failure.{non_empty_string}
use gh_aw_mcpg.Config.Scope.{
  is_valid_repo_scope, normalize_and_validate_scope_array, scope_loop, valid_parts,
}
use gh_aw_mcpg.Config.Scope.Laws.{
  Shape, WellFormed, exact_repo, is_valid_repo_scope-shape, owner_wildcard, prefix_wildcard, print,
  token_bytes-no_space,
}
use mathlib.Core.List.{append-nil, append_assoc}

abbrev pub strings : List Str → List Json
strings [] = []
strings (s ∷ ss) = string s ∷ strings ss

-- a list of scopes in canonical form: accepted, all different, in order
abbrev pub Canonical : List Str → Type 0
Canonical scopes = All (λ s. is_valid_repo_scope s ≡ true) scopes × Distinct scopes × Sorted scopes

-- No accepted scope has white space.
no_space-append : (s t : Str) → no_space s ≡ true → no_space t ≡ true → no_space (s ++ t) ≡ true
unfolding no_space
no_space-append [] t h k = k
no_space-append (c ∷ s) t h k = ground (arith, no_space-append s t)

print-no_space : (shape : Shape) → WellFormed shape → no_space (print shape) ≡ true
unfolding no_space
print-no_space (owner_wildcard owner) w =
    no_space-append owner (bytes "/*") (token_bytes-no_space owner w.2) refl
print-no_space (exact_repo owner name) w =
    no_space-append owner (b'/' ∷ name) (token_bytes-no_space owner w.0.2)
      (ground (arith, token_bytes-no_space name w.1.2))
print-no_space (prefix_wildcard owner name) w =
    no_space-append owner (b'/' ∷ (name ++ b'*' ∷ [])) (token_bytes-no_space owner w.0.2)
      (ground (arith, no_space-append name (b'*' ∷ []) (token_bytes-no_space name w.1.2) refl))

is_valid_repo_scope-trim_space : (s : Str) → is_valid_repo_scope s ≡ true → trim_space s ≡ s
is_valid_repo_scope-trim_space s h =
    let (shape, w, e) = is_valid_repo_scope-shape s h in
    trim_space-no_space s (ap no_space (sym e) ∙ print-no_space shape w)

-- the loop: what is known of `seen` and `normalized` holds of the result
scope_loop-Canonical :
    (scopes : List Json) (seen normalized : List Str) {out : List Str}
    → ((s : Str) → has_key normalized s ≡ has_key seen s)
    → All (λ s. is_valid_repo_scope s ≡ true) normalized
    → Distinct normalized
    → scope_loop scopes seen normalized ≡ ok out
    → All (λ s. is_valid_repo_scope s ≡ true) out × Distinct out
unfolding scope_loop has_key
scope_loop-Canonical [] seen normalized {out} same valid d h = ground arith
scope_loop-Canonical (string s ∷ scopes) seen normalized {out} same valid d h = ground (
  arith,
  same (trim_space s),
  All-append (λ (t : Str). is_valid_repo_scope t ≡ true) normalized (trim_space s ∷ []) valid,
  append-Distinct normalized (trim_space s) d,
  scope_loop-Canonical scopes (insert_key (trim_space s) seen) (normalized ++ trim_space s ∷ [])
      {out = out}
      (λ t. ground (
        arith,
        same t,
        has_key-insert_key (trim_space s) t seen,
        has_key-append normalized (trim_space s ∷ []) t,
      )),
)
scope_loop-Canonical (other ∷ scopes) seen normalized {out} same valid d h = ground arith

sort_strings-Canonical :
    (scopes : List Str)
    → All (λ s. is_valid_repo_scope s ≡ true) scopes
    → Distinct scopes
    → Canonical (sort_strings scopes)
sort_strings-Canonical scopes valid d = (
  All-sort_strings (λ s. is_valid_repo_scope s ≡ true) scopes valid,
  sort_strings-Distinct scopes d,
  sort_strings-Sorted scopes,
)

-- Every scope that is returned is accepted, none is there twice, and they are in order.
pub normalize_and_validate_scope_array-Canonical :
    (scopes : List Json) (out : List Str)
    → normalize_and_validate_scope_array scopes ≡ ok out
    → Canonical out
unfolding normalize_and_validate_scope_array
normalize_and_validate_scope_array-Canonical [] out h = ground arith
normalize_and_validate_scope_array-Canonical (scope ∷ scopes) out h =
    elim (Result-cases (scope_loop (scope ∷ scopes) [] [])) [
      | inl (found, e) ↦
          let (valid, d) = scope_loop-Canonical (scope ∷ scopes) [] [] (λ s. refl) tt tt e in
          let same : sort_strings found ≡ out = ground arith in
          rw (← same) (sort_strings-Canonical found valid d)
      | inr (failure, e) ↦ ground arith
    ]

is_valid_repo_scope-is_nil : (s : Str) → is_valid_repo_scope s ≡ true → is_nil s ≡ false
unfolding is_valid_repo_scope valid_parts split
is_valid_repo_scope-is_nil [] h = ground arith
is_valid_repo_scope-is_nil (c ∷ s) h = refl

-- A canonical list runs through the loop unchanged.
scope_loop-strings :
    (scopes seen normalized : List Str)
    → All (λ s. is_valid_repo_scope s ≡ true) scopes
    → Distinct scopes
    → Fresh seen scopes
    → scope_loop (strings scopes) seen normalized ≡ ok (normalized ++ scopes)
unfolding scope_loop non_empty_string
scope_loop-strings [] seen normalized valid d fresh = ap ok (sym (append-nil normalized))
scope_loop-strings (s ∷ ss) seen normalized valid d fresh =
    rw
      (
        is_valid_repo_scope-trim_space s valid.0,
        valid.0,
        fresh.0,
        is_valid_repo_scope-is_nil s valid.0,
      )
      (scope_loop-strings ss (insert_key s seen) (normalized ++ s ∷ []) valid.1 d.1
          ((Fresh-insert_key s seen ss).1 (d.0, fresh.1))
        ∙ ap ok (append_assoc normalized (s ∷ []) ss))

-- A list in canonical form, with a scope in it, is returned as it is.
pub normalize_and_validate_scope_array-strings :
    (scope : Str) (scopes : List Str)
    → Canonical (scope ∷ scopes)
    → normalize_and_validate_scope_array (strings (scope ∷ scopes)) ≡ ok (scope ∷ scopes)
unfolding normalize_and_validate_scope_array
normalize_and_validate_scope_array-strings scope scopes (valid, d, o) =
    rw (scope_loop-strings (scope ∷ scopes) [] [] valid d (Fresh-nil (scope ∷ scopes)))
      (ap ok (sort_strings-Sorted_id (scope ∷ scopes) o))

length-scope_loop :
    (scopes : List Json) (seen normalized : List Str) {out : List Str}
    → scope_loop scopes seen normalized ≡ ok out
    → length out ≡ length normalized + length scopes
unfolding scope_loop
length-scope_loop [] seen normalized {out} h = ground arith
length-scope_loop (string s ∷ scopes) seen normalized {out} h = ground (
  arith,
  length-append normalized (trim_space s ∷ []),
  length-scope_loop scopes (insert_key (trim_space s) seen) (normalized ++ trim_space s ∷ [])
      {out = out},
)
length-scope_loop (other ∷ scopes) seen normalized {out} h = ground arith

-- No scope is lost: there are as many as in the input, which is not empty.
length-normalize_and_validate_scope_array :
    (scopes : List Json) (out : List Str)
    → normalize_and_validate_scope_array scopes ≡ ok out
    → (length out ≡ length scopes) × (1 ≤ length out)
unfolding normalize_and_validate_scope_array
length-normalize_and_validate_scope_array [] out h = ground arith
length-normalize_and_validate_scope_array (scope ∷ scopes) out h =
    elim (Result-cases (scope_loop (scope ∷ scopes) [] [])) [
      | inl (found, e) ↦
          ground (arith, length-scope_loop (scope ∷ scopes) [] [] e, length-sort_strings found)
      | inr (failure, e) ↦ ground arith
    ]

-- Normalising a normalised array changes nothing.
pub normalize_and_validate_scope_array_idem :
    (scopes : List Json) (out : List Str)
    → normalize_and_validate_scope_array scopes ≡ ok out
    → normalize_and_validate_scope_array (strings out) ≡ ok out
normalize_and_validate_scope_array_idem scopes [] h =
    ground (arith, length-normalize_and_validate_scope_array scopes [] h)
normalize_and_validate_scope_array_idem scopes (s ∷ ss) h =
    normalize_and_validate_scope_array-strings s ss
      (normalize_and_validate_scope_array-Canonical scopes (s ∷ ss) h)
