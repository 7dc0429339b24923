-- ===== src/Config/Sink/Laws.antt =====
-- Which write-sink policies the validation lets through.
use gh_aw_mcpg.Common.{
  All, Bool-cases, Distinct, Fresh, Fresh-insert_key, Fresh-nil, List, Option-cases, [], arith, eqb,
  eqb_iff, false, has_key, inl, inr, insert_key, is_nil, map, none, refl, some, sym, true, ℕ, ◌++◌,
  ◌||◌, ◌↔◌, ◌∷◌, ◌≡◌, ◌≢◌, ◌⊎◌,
}
use gh_aw_mcpg.Common.Json.{entries}
use gh_aw_mcpg.Common.Result.{ok}
use gh_aw_mcpg.Common.Split.{count_byte, cut_at, on_first, split}
use gh_aw_mcpg.Common.Split.Laws.{Lacks}
use gh_aw_mcpg.Common.Text.{Str, bytes, str_beq, str_beq_iff, str_eq, to_lower, trim_space}
use gh_aw_mcpg.Config.Failure.{non_empty_string}
use gh_aw_mcpg.Config.Scope.{
  is_scope_token_char, is_valid_repo_owner, is_valid_repo_scope, is_valid_token_string, token_bytes,
  valid_parts,
}
use gh_aw_mcpg.Config.Sink.{
  WriteSinkPolicy, accept_loop, accept_scope, is_wildcard, validate_accept_entry,
  validate_write_sink_policy, visibilities,
}

-- one of the three visibilities
abbrev pub IsVisibility : Str → Type 0
IsVisibility v = (v ≡ bytes "public") ⊎ ((v ≡ bytes "private") ⊎ (v ≡ bytes "internal"))

-- a scope, or an owner alone
abbrev pub IsScopeOrOwner : Str → Type 0
IsScopeOrOwner s = (is_valid_repo_scope s ≡ true) ⊎ (is_valid_repo_owner s ≡ true)

-- A scope or an owner, without a colon or behind a visibility and a colon.
abbrev pub IsAcceptEntry : Str → Type 0
IsAcceptEntry entry =
    (Lacks b':' entry × IsScopeOrOwner entry)
    ⊎ ((visibility : Str) × (scope : Str) × (entry ≡ visibility ++ b':' ∷ scope)
        × IsVisibility visibility
        × IsScopeOrOwner scope)

is_nil-false : (s : Str) → s ≢ [] → is_nil s ≡ false
is_nil-false [] h = absurd (h refl)
is_nil-false (c ∷ s) h = refl

has_key-visibilities : (v : Str) → (has_key visibilities v ≡ true) ↔ IsVisibility v
unfolding has_key
has_key-visibilities v = ground (
  arith,
  str_beq_iff (bytes "public") v,
  str_beq_iff (bytes "private") v,
  str_beq_iff (bytes "internal") v,
)

cut_at-none : (b : ℕ) (s : Str) → cut_at b s ≡ none → Lacks b s
unfolding cut_at count_byte
cut_at-none b [] h = refl
cut_at-none b (c ∷ s) h = elim (Option-cases (cut_at b s)) [
  | inl rest ↦ ground (arith, cut_at-none b s rest)
  | inr (parts, rest) ↦ ground arith
]

cut_at-Lacks : (b : ℕ) (s : Str) → Lacks b s → cut_at b s ≡ none
unfolding cut_at count_byte
cut_at-Lacks b [] h = refl
cut_at-Lacks b (c ∷ s) h = ground (arith, cut_at-Lacks b s (ground arith))

cut_at-some :
    (b : ℕ) (s before after : Str) → cut_at b s ≡ some (before, after) → s ≡ before ++ b ∷ after
unfolding cut_at
cut_at-some b [] before after h = ground arith
cut_at-some b (c ∷ s) before after h = elim (Bool-cases (eqb c b)) [
  | inl here ↦ ground (arith, eqb_iff c b)
  | inr later ↦ elim (Option-cases (cut_at b s)) [
    | inl rest ↦ ground arith
    | inr ((found_before, found_after), rest) ↦
        ground (arith, cut_at-some b s found_before found_after rest)
  ]
]

cut_at-append :
    (b : ℕ) (before after : Str)
    → Lacks b before
    → cut_at b (before ++ b ∷ after) ≡ some (before, after)
unfolding cut_at count_byte
cut_at-append b [] after h = ground arith
cut_at-append b (c ∷ before) after h = ground (arith, cut_at-append b before after (ground arith))

IsVisibility-Lacks : (v : Str) → IsVisibility v → Lacks b':' v
unfolding count_byte
IsVisibility-Lacks v (inl e) = rw e refl
IsVisibility-Lacks v (inr (inl e)) = rw e refl
IsVisibility-Lacks v (inr (inr e)) = rw e refl

owner-colon : (s : Str) → is_valid_repo_owner (b':' ∷ s) ≡ false
unfolding is_valid_repo_owner is_valid_token_string token_bytes is_scope_token_char
owner-colon s = ground arith

valid_parts-colon : (parts : List Str) → valid_parts (on_first b':' parts) ≡ false
unfolding valid_parts
valid_parts-colon [] = refl
valid_parts-colon (part ∷ []) = refl
valid_parts-colon (part ∷ next ∷ []) = rw (owner-colon part) refl
valid_parts-colon (part ∷ next ∷ third ∷ parts) = refl

-- neither a scope nor an owner begins with a colon
colon_first : (s : Str) → ¬ IsScopeOrOwner (b':' ∷ s)
unfolding is_valid_repo_scope split
colon_first s (inl scope) = ground (arith, valid_parts-colon (split b'/' s))
colon_first s (inr owner) = ground (arith, owner-colon s)

plain_iff : (s : Str) → ((is_valid_repo_scope s || is_valid_repo_owner s) ≡ true) ↔ IsScopeOrOwner s
plain_iff s = ground arith

validate-IsAcceptEntry : (entry : Str) → validate_accept_entry entry ≡ ok tt → IsAcceptEntry entry
unfolding validate_accept_entry accept_scope
validate-IsAcceptEntry entry h = elim (Option-cases (cut_at b':' entry)) [
  | inl uncut ↦ inl (cut_at-none b':' entry uncut, (plain_iff entry).0 (ground arith))
  | inr (([], after), cut) ↦
      let whole : entry ≡ b':' ∷ after = cut_at-some b':' entry [] after cut in
      let scope : IsScopeOrOwner entry = (plain_iff entry).0 (ground arith) in
      absurd (colon_first after (rw (sym whole) scope))
  | inr ((c ∷ before, after), cut) ↦ inr (
    c ∷ before,
    after,
    cut_at-some b':' entry (c ∷ before) after cut,
    (has_key-visibilities (c ∷ before)).0 (ground arith),
    (plain_iff after).0 (ground arith),
  )
]

IsAcceptEntry-validate : (entry : Str) → IsAcceptEntry entry → validate_accept_entry entry ≡ ok tt
unfolding validate_accept_entry accept_scope
IsAcceptEntry-validate entry (inl (lacks, scope)) =
    let uncut = cut_at-Lacks b':' entry lacks in ground (arith, (plain_iff entry).1 scope)
IsAcceptEntry-validate entry (inr ([], scope, whole, visible, valid)) =
    ground (arith, visible, (has_key-visibilities []).1 visible)
IsAcceptEntry-validate entry (inr (c ∷ visibility, scope, whole, visible, valid)) =
    let lacks = IsVisibility-Lacks (c ∷ visibility) visible in
    ground (
      arith,
      whole,
      cut_at-append b':' (c ∷ visibility) scope lacks,
      (has_key-visibilities (c ∷ visibility)).1 visible,
      (plain_iff scope).1 valid,
    )

-- an entry as the loop wants it, its white space taken off
abbrev pub IsEntry : Str → Type 0
IsEntry e = (trim_space e ≢ []) × (trim_space e ≢ bytes "*") × IsAcceptEntry (trim_space e)

trimmed-IsEntry_iff :
    (e : Str)
    → ((is_nil (trim_space e) ≡ false)
        × (str_beq (trim_space e) (bytes "*") ≡ false)
        × (validate_accept_entry (trim_space e) ≡ ok tt))
      ↔ IsEntry e
trimmed-IsEntry_iff e = (
  λ (full, plain, valid). (
    λ empty. ground arith,
    λ star. ground (arith, str_beq_iff (trim_space e) (bytes "*")),
    validate-IsAcceptEntry (trim_space e) valid,
  ),
  λ (full, plain, valid). (
    is_nil-false (trim_space e) full,
    ground (arith, str_beq_iff (trim_space e) (bytes "*")),
    IsAcceptEntry-validate (trim_space e) valid,
  ),
)

-- the loop accepts exactly valid entries that are all different from those seen and each other
accept_loop_iff :
    (entries seen : List Str)
    → (accept_loop entries seen ≡ ok tt) ↔ (
        All IsEntry entries
        × Fresh seen (map trim_space entries)
        × Distinct (map trim_space entries))
unfolding accept_loop non_empty_string
accept_loop_iff [] seen = (λ h. (tt, tt, tt), λ h. refl)
accept_loop_iff (e ∷ es) seen = ground (
  arith,
  trimmed-IsEntry_iff e,
  accept_loop_iff es (insert_key (trim_space e) seen),
  Fresh-insert_key (trim_space e) seen (map trim_space es),
)

-- a visibility in any case and with any white space around it, or none
abbrev pub ValidVisibility : Str → Type 0
ValidVisibility v = (v ≡ []) ⊎ IsVisibility (to_lower (trim_space v))

-- the single wildcard, or valid entries that differ
abbrev pub ValidAccept : List Str → Type 0
ValidAccept entries =
    ((e : Str) × (entries ≡ e ∷ []) × (trim_space e ≡ bytes "*"))
    ⊎ ((entries ≢ []) × (All IsEntry entries) × (Distinct (map trim_space entries)))

wildcard_iff :
    (entries : List Str)
    → (is_wildcard entries ≡ true) ↔ ((e : Str) × (entries ≡ e ∷ []) × (trim_space e ≡ bytes "*"))
unfolding is_wildcard
wildcard_iff [] = ground arith
wildcard_iff (e ∷ []) = (
  λ h. (e, refl, ground (arith, str_beq_iff (trim_space e) (bytes "*"))),
  λ (other, same, star). ground (arith, str_beq_iff (trim_space e) (bytes "*")),
)
wildcard_iff (e ∷ f ∷ rest) = ground arith

accepted_iff :
    (entries : List Str)
    → ((is_nil entries ≡ false) × ((is_wildcard entries ≡ true) ⊎ (accept_loop entries [] ≡ ok tt)))
      ↔ ValidAccept entries
unfolding is_wildcard
accepted_iff [] = (λ h. ground arith, λ h. ground (arith, h))
accepted_iff (e ∷ es) =
    ground (
      arith,
      wildcard_iff (e ∷ es),
      accept_loop_iff (e ∷ es) [],
      Fresh-nil (map trim_space (e ∷ es)),
    )

-- The validation accepts a write-sink policy exactly when its visibility is absent or, in any case and
-- with white space around it, public, private or internal, and its entries are a single star, or at
-- least one, none a star, none twice, and each a scope or an owner, behind a visibility and a colon or
-- without a colon.
pub validate_write_sink_policy_iff :
    (ws : WriteSinkPolicy)
    → (validate_write_sink_policy (some ws) ≡ ok tt)
      ↔ (ValidVisibility ws.sink_visibility × ValidAccept ws.accept)
unfolding validate_write_sink_policy
validate_write_sink_policy_iff ws =
    ground (
      arith,
      accepted_iff ws.accept,
      has_key-visibilities (to_lower (trim_space ws.sink_visibility)),
    )
