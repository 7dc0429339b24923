-- ===== src/Config/Policy/Normal.antt =====
-- Normalising a normal policy changes nothing.
use gh_aw_mcpg.Common.{
  List, [], arith, false, if◌then◌else◌, inl, inr, is_nil, refl, true, ◌==◌, ◌↔◌, ◌∷◌, ◌≡◌, ◌⊎◌,
}
use gh_aw_mcpg.Common.Int.{ℤ}
use gh_aw_mcpg.Common.Json.{Json, array, elements, string}
use gh_aw_mcpg.Common.Result.{Result-cases, ok}
use gh_aw_mcpg.Common.Text.{
  Str, bytes, str_beq, str_beq_iff, str_eq, to_lower, to_upper, trim_space,
}
use gh_aw_mcpg.Common.Text.Laws.{
  to_lower_idem, to_upper_idem, trim_space-to_lower, trim_space-to_upper, trim_space_idem,
}
use gh_aw_mcpg.Config.Integrity.{normalize_integrity_level, normalize_integrity_level_idem}
use gh_aw_mcpg.Config.Policy.{
  AllowOnlyPolicy, NormalizedGuardPolicy, Repos, decoded, normalize_allow_only, normalize_repos,
  normalize_scoped, normalize_string_slice, normalize_tool_call_limits, string_slice,
}
use gh_aw_mcpg.Config.Policy.Limits.{
  normalize_tool_call_limits-NormalLimits, normalize_tool_call_limits_normal,
}
use gh_aw_mcpg.Config.Policy.Slice.{
  normalize_string_slice-NormalSlice, normalize_string_slice_stable,
}
use gh_aw_mcpg.Config.Scope.{normalize_and_validate_scope_array}
use gh_aw_mcpg.Config.Scope.Array.{normalize_and_validate_scope_array_idem, strings}

abbrev as_repos : Str → List Str → Repos
as_repos kind values = if kind == bytes "scoped" then string_slice values else decoded (string kind)

-- the policy that a normalised one spells out
abbrev pub as_policy : NormalizedGuardPolicy → AllowOnlyPolicy
as_policy n = record {
  repos = as_repos n.scope_kind n.scope_values;
  min_integrity = n.min_integrity;
  tool_call_limits = n.tool_call_limits;
  blocked_users = n.blocked_users;
  refusal_labels = n.refusal_labels;
  approval_labels = n.approval_labels;
  trusted_users = n.trusted_users;
  endorsement_reactions = n.endorsement_reactions;
  disapproval_reactions = n.disapproval_reactions;
  disapproval_integrity = n.disapproval_integrity;
  endorser_min_integrity = n.endorser_min_integrity;
  promotion_label = n.promotion_label;
  demotion_label = n.demotion_label;
}

-- each part of a policy is normalised to the part of `n`
abbrev pub Parts : AllowOnlyPolicy → NormalizedGuardPolicy → Type 0
Parts p n =
    (normalize_integrity_level p.min_integrity false ≡ ok n.min_integrity)
    × (normalize_tool_call_limits p.tool_call_limits ≡ ok n.tool_call_limits)
    × (normalize_string_slice p.blocked_users to_lower false ≡ ok n.blocked_users)
    × (normalize_string_slice p.refusal_labels to_lower false ≡ ok n.refusal_labels)
    × (normalize_string_slice p.approval_labels to_lower false ≡ ok n.approval_labels)
    × (normalize_string_slice p.trusted_users to_lower false ≡ ok n.trusted_users)
    × (normalize_string_slice p.endorsement_reactions to_upper true ≡ ok n.endorsement_reactions)
    × (normalize_string_slice p.disapproval_reactions to_upper true ≡ ok n.disapproval_reactions)
    × (normalize_integrity_level p.disapproval_integrity true ≡ ok n.disapproval_integrity)
    × (normalize_integrity_level p.endorser_min_integrity true ≡ ok n.endorser_min_integrity)
    × (normalize_repos p.repos ≡ ok (n.scope_kind, n.scope_values))
    × (trim_space p.promotion_label ≡ n.promotion_label)
    × (trim_space p.demotion_label ≡ n.demotion_label)

pub normalize_allow_only_iff :
    (p : AllowOnlyPolicy) (n : NormalizedGuardPolicy) → (normalize_allow_only p ≡ ok n) ↔ Parts p n
unfolding normalize_allow_only
normalize_allow_only_iff p n = ground arith

-- the branch of an array of scopes
scoped_idem :
    (scopes : List Json) (kind : Str) (values : List Str)
    → normalize_scoped scopes ≡ ok (kind, values)
    → normalize_repos (as_repos kind values) ≡ ok (kind, values)
unfolding normalize_repos normalize_scoped str_beq
scoped_idem scopes kind values h = elim (Result-cases (normalize_and_validate_scope_array scopes)) [
  | inl (found, e) ↦
      let scoped : kind ≡ bytes "scoped" = ground arith in
      let same : values ≡ found = ground arith in
      rw (scoped, same, normalize_and_validate_scope_array_idem scopes found e) refl
  | inr (failure, e) ↦ ground arith
]

word_idem :
    (word : Str)
    → (word ≡ bytes "all") ⊎ (word ≡ bytes "public")
    → normalize_repos (as_repos word []) ≡ ok (word, [])
unfolding normalize_repos str_beq trim_space to_lower
word_idem word (inl e) = rw e refl
word_idem word (inr e) = rw e refl

normalize_repos_idem :
    (repos : Repos) (kind : Str) (values : List Str)
    → normalize_repos repos ≡ ok (kind, values)
    → normalize_repos (as_repos kind values) ≡ ok (kind, values)
unfolding normalize_repos
normalize_repos_idem (string_slice ss) kind values h = scoped_idem (strings ss) kind values h
normalize_repos_idem (decoded (string s)) kind values h =
    let none_left : values ≡ [] = ground arith in
    let is_word : (kind ≡ bytes "all") ⊎ (kind ≡ bytes "public") =
      ground (arith, str_beq_iff kind (bytes "all"), str_beq_iff kind (bytes "public")) in
    rw none_left (word_idem kind is_word)
normalize_repos_idem (decoded (array vs)) kind values h = scoped_idem (elements vs) kind values h
normalize_repos_idem (decoded other) kind values h = ground arith

is_nil-to_lower : (s : Str) → is_nil (to_lower s) ≡ is_nil s
unfolding to_lower
is_nil-to_lower [] = refl
is_nil-to_lower (c ∷ s) = refl

is_nil-to_upper : (s : Str) → is_nil (to_upper s) ≡ is_nil s
unfolding to_upper
is_nil-to_upper [] = refl
is_nil-to_upper (c ∷ s) = refl

-- entries kept as they are, equal up to case only once
lower_slice_idem :
    (ss out : List Str)
    → normalize_string_slice ss to_lower false ≡ ok out
    → normalize_string_slice out to_lower false ≡ ok out
lower_slice_idem ss out h =
    normalize_string_slice_stable to_lower false to_lower_idem trim_space-to_lower is_nil-to_lower
      out
      (normalize_string_slice-NormalSlice to_lower false to_lower_idem trim_space-to_lower
        is_nil-to_lower ss h)

-- entries in upper case
upper_slice_idem :
    (ss out : List Str)
    → normalize_string_slice ss to_upper true ≡ ok out
    → normalize_string_slice out to_upper true ≡ ok out
upper_slice_idem ss out h =
    normalize_string_slice_stable to_upper true to_upper_idem trim_space-to_upper is_nil-to_upper
      out
      (normalize_string_slice-NormalSlice to_upper true to_upper_idem trim_space-to_upper
        is_nil-to_upper ss h)

limits_idem :
    (m out : List (Str × ℤ))
    → normalize_tool_call_limits m ≡ ok out
    → normalize_tool_call_limits out ≡ ok out
limits_idem m out h =
    normalize_tool_call_limits_normal out (normalize_tool_call_limits-NormalLimits m h)

-- A policy that has been normalised, written out as a policy again, is normalised to itself.
pub normalize_allow_only_idem :
    (p : AllowOnlyPolicy) (n : NormalizedGuardPolicy)
    → normalize_allow_only p ≡ ok n
    → normalize_allow_only (as_policy n) ≡ ok n
normalize_allow_only_idem p n h =
    let parts = (normalize_allow_only_iff p n).0 h in
    (normalize_allow_only_iff (as_policy n) n).1 (
      normalize_integrity_level_idem p.min_integrity n.min_integrity false parts.0,
      limits_idem p.tool_call_limits n.tool_call_limits parts.1,
      lower_slice_idem p.blocked_users n.blocked_users parts.2,
      lower_slice_idem p.refusal_labels n.refusal_labels parts.3,
      lower_slice_idem p.approval_labels n.approval_labels parts.4,
      lower_slice_idem p.trusted_users n.trusted_users parts.5,
      upper_slice_idem p.endorsement_reactions n.endorsement_reactions parts.6,
      upper_slice_idem p.disapproval_reactions n.disapproval_reactions parts.7,
      normalize_integrity_level_idem p.disapproval_integrity n.disapproval_integrity true parts.8,
      normalize_integrity_level_idem p.endorser_min_integrity n.endorser_min_integrity true parts.9,
      normalize_repos_idem p.repos n.scope_kind n.scope_values parts.10,
      rw (← parts.11) (trim_space_idem p.promotion_label),
      rw (← parts.12) (trim_space_idem p.demotion_label),
    )
