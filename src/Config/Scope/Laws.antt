-- ===== src/Config/Scope/Laws.antt =====
-- The scopes that `isValidRepoScope` accepts, described by their shape.
use gh_aw_mcpg.Common.{
  Bool-cases, List, [], ap, arith, inl, inr, length, refl, sym, true, ℕ, ◌++◌, ◌↔◌, ◌∙◌, ◌∷◌, ◌≡◌,
  ◌≤◌, ◌⊎◌,
}
use gh_aw_mcpg.Common.Split.{count_byte, ends_with, init, split, trim_suffix}
use gh_aw_mcpg.Common.Split.Laws.{
  Lacks, count_byte-append, ends_with-Lacks, ends_with-append, ends_with-init, init-append,
  join-split, split-Lacks, split-append,
}
use gh_aw_mcpg.Common.Text.{Str, bytes, join, str_beq, str_beq_iff, str_eq}
use gh_aw_mcpg.Common.Text.Laws.{no_space}
use gh_aw_mcpg.Config.Scope.{
  is_scope_token_char, is_valid_repo_name, is_valid_repo_owner, is_valid_repo_part,
  is_valid_repo_scope, is_valid_token_string, token_bytes, valid_parts,
}

-- a scope as it is meant: all repositories of an owner, one, or those whose names start alike
pub data Shape : Type 0 where
  owner_wildcard : Str → Shape
  exact_repo : Str → Str → Shape
  prefix_wildcard : Str → Str → Shape

abbrev pub print : Shape → Str
print (owner_wildcard owner) = owner ++ bytes "/*"
print (exact_repo owner name) = owner ++ b'/' ∷ name
print (prefix_wildcard owner name) = owner ++ b'/' ∷ (name ++ b'*' ∷ [])

abbrev pub IsToken : Str → ℕ → Type 0
IsToken s max_len = (1 ≤ length s) × (length s ≤ max_len) × (token_bytes s ≡ true)

abbrev pub WellFormed : Shape → Type 0
WellFormed (owner_wildcard owner) = IsToken owner 39
WellFormed (exact_repo owner name) = IsToken owner 39 × IsToken name 100
WellFormed (prefix_wildcard owner name) = IsToken owner 39 × IsToken name 100

-- Neither a slash, nor a star, nor a dot, nor white space is a byte of a token.
token_bytes-Lacks_slash : (s : Str) → token_bytes s ≡ true → Lacks b'/' s
unfolding token_bytes is_scope_token_char count_byte
token_bytes-Lacks_slash [] h = refl
token_bytes-Lacks_slash (c ∷ s) h = ground (arith, token_bytes-Lacks_slash s)

token_bytes-Lacks_star : (s : Str) → token_bytes s ≡ true → Lacks b'*' s
unfolding token_bytes is_scope_token_char count_byte
token_bytes-Lacks_star [] h = refl
token_bytes-Lacks_star (c ∷ s) h = ground (arith, token_bytes-Lacks_star s)

token_bytes-Lacks_dot : (s : Str) → token_bytes s ≡ true → Lacks b'.' s
unfolding token_bytes is_scope_token_char count_byte
token_bytes-Lacks_dot [] h = refl
token_bytes-Lacks_dot (c ∷ s) h = ground (arith, token_bytes-Lacks_dot s)

pub token_bytes-no_space : (s : Str) → token_bytes s ≡ true → no_space s ≡ true
unfolding token_bytes is_scope_token_char no_space
token_bytes-no_space [] h = refl
token_bytes-no_space (c ∷ s) h = ground (arith, token_bytes-no_space s)

is_valid_token_string-IsToken :
    (s : Str) (max_len : ℕ) → is_valid_token_string s max_len ≡ true → IsToken s max_len
unfolding is_valid_token_string
is_valid_token_string-IsToken s max_len h = ground arith

IsToken-is_valid_token_string :
    (s : Str) (max_len : ℕ) → IsToken s max_len → is_valid_token_string s max_len ≡ true
unfolding is_valid_token_string
IsToken-is_valid_token_string s max_len h = ground arith

is_valid_repo_part-star : is_valid_repo_part (bytes "*") ≡ true
unfolding is_valid_repo_part str_beq
is_valid_repo_part-star = ground arith

is_valid_repo_part-name : (name : Str) → IsToken name 100 → is_valid_repo_part name ≡ true
unfolding is_valid_repo_part is_valid_repo_name
is_valid_repo_part-name name t = ground (
  arith,
  token_bytes-Lacks_star name t.2,
  ends_with-Lacks b'*' name,
  IsToken-is_valid_token_string name 100 t,
)

is_valid_repo_part-prefix :
    (name : Str) → IsToken name 100 → is_valid_repo_part (name ++ b'*' ∷ []) ≡ true
unfolding is_valid_repo_part is_valid_repo_name trim_suffix count_byte
is_valid_repo_part-prefix name t = ground (
  arith,
  token_bytes-Lacks_star name t.2,
  token_bytes-Lacks_dot name t.2,
  ends_with-append b'*' name,
  count_byte-append b'*' name (b'*' ∷ []),
  init-append b'*' name,
  ends_with-Lacks b'.' name,
  IsToken-is_valid_token_string name 100 t,
)

-- A part that is accepted is a star, a name, or a name with a star behind it.
is_valid_repo_part-cases :
    (part : Str)
    → is_valid_repo_part part ≡ true
    → (part ≡ bytes "*")
      ⊎ (IsToken part 100)
      ⊎ ((name : Str) × (IsToken name 100) × (part ≡ name ++ b'*' ∷ []))
unfolding is_valid_repo_part is_valid_repo_name trim_suffix
is_valid_repo_part-cases part h = elim (Bool-cases (str_beq part (bytes "*"))) [
  | inl star ↦ inl ((str_beq_iff part (bytes "*")).0 star)
  | inr e ↦ elim (Bool-cases (ends_with b'*' part)) [
    | inl w ↦ inr (
        inr (
          init part,
          is_valid_token_string-IsToken (init part) 100 (ground arith),
          sym (ends_with-init b'*' part w),
        ))
    | inr n ↦ inr (inl (is_valid_token_string-IsToken part 100 (ground arith)))
  ]
]

is_valid_repo_scope-parts :
    (owner part : Str)
    → IsToken owner 39
    → Lacks b'/' part
    → is_valid_repo_part part ≡ true
    → is_valid_repo_scope (owner ++ b'/' ∷ part) ≡ true
unfolding is_valid_repo_scope valid_parts is_valid_repo_owner
is_valid_repo_scope-parts owner part o l p =
    rw
      (
        split-append b'/' owner part (token_bytes-Lacks_slash owner o.2),
        split-Lacks b'/' part l,
        IsToken-is_valid_token_string owner 39 o,
      )
      p

-- The scope of a well-formed shape is accepted.
pub is_valid_repo_scope-print :
    (shape : Shape) → WellFormed shape → is_valid_repo_scope (print shape) ≡ true
unfolding count_byte
is_valid_repo_scope-print (owner_wildcard owner) w =
    is_valid_repo_scope-parts owner (bytes "*") w refl is_valid_repo_part-star
is_valid_repo_scope-print (exact_repo owner name) (o, n) =
    is_valid_repo_scope-parts owner name o (token_bytes-Lacks_slash name n.2)
      (is_valid_repo_part-name name n)
is_valid_repo_scope-print (prefix_wildcard owner name) (o, n) =
    is_valid_repo_scope-parts owner (name ++ b'*' ∷ []) o
      (omega (arith, count_byte-append b'/' name (b'*' ∷ []), token_bytes-Lacks_slash name n.2))
      (is_valid_repo_part-prefix name n)

valid_parts-cases :
    (parts : List Str)
    → valid_parts parts ≡ true
    → (owner : Str) × (part : Str) × (parts ≡ owner ∷ part ∷ [])
      × (IsToken owner 39)
      × (is_valid_repo_part part ≡ true)
unfolding valid_parts is_valid_repo_owner
valid_parts-cases [] h = ground arith
valid_parts-cases (owner ∷ []) h = ground arith
valid_parts-cases (owner ∷ part ∷ []) h =
    (owner, part, refl, is_valid_token_string-IsToken owner 39 (ground arith), ground arith)
valid_parts-cases (owner ∷ part ∷ next ∷ parts) h = ground arith

-- Every accepted scope is the text of a well-formed shape.
pub is_valid_repo_scope-shape :
    (scope : Str)
    → is_valid_repo_scope scope ≡ true
    → (shape : Shape) × (WellFormed shape) × (print shape ≡ scope)
unfolding is_valid_repo_scope join
is_valid_repo_scope-shape scope h =
    let (owner, part, e, o, p) = valid_parts-cases (split b'/' scope) h in
    let whole : owner ++ b'/' ∷ part ≡ scope =
      sym (ap (join (b'/' ∷ [])) e) ∙ join-split b'/' scope in
    elim (is_valid_repo_part-cases part p) [
      | inl star ↦ (owner_wildcard owner, o, ap (λ x. owner ++ b'/' ∷ x) (sym star) ∙ whole)
      | inr (inl n) ↦ (exact_repo owner part, (o, n), whole)
      | inr (inr (name, n, eq)) ↦
          (prefix_wildcard owner name, (o, n), ap (λ x. owner ++ b'/' ∷ x) (sym eq) ∙ whole)
    ]

-- `isValidRepoScope` accepts a string exactly when it is the text of a well-formed shape.
pub is_valid_repo_scope_iff :
    (scope : Str)
    → (is_valid_repo_scope scope ≡ true)
      ↔ ((shape : Shape) × (WellFormed shape) × (print shape ≡ scope))
is_valid_repo_scope_iff scope = (
  is_valid_repo_scope-shape scope,
  λ found. rw (← found.2) (is_valid_repo_scope-print found.0 found.1),
)
