-- ===== src/Config/Build/Laws.antt =====
-- What a policy from the command line's flags stands for.
use gh_aw_mcpg.Common.{
  Bool, List, Option-cases, [], arith, false, has_key, if◌then◌else◌, inl, inr, none, refl, some,
  true, ◌↔◌, ◌∷◌, ◌≡◌,
}
use gh_aw_mcpg.Common.Json.{string}
use gh_aw_mcpg.Common.Order.{sort_strings}
use gh_aw_mcpg.Common.Result.{Result-cases, ok}
use gh_aw_mcpg.Common.Text.{Str, bytes, str_beq, str_eq, to_lower, trim_space}
use gh_aw_mcpg.Config.Build.{
  allow_only_of, build_allow_only_policy, finish_policy, integrity_by_input, remove_byte, repos_of,
  scope_of,
}
use gh_aw_mcpg.Config.Integrity.{all_integrity_levels, normalize_integrity_level-cases}
use gh_aw_mcpg.Config.Policy.{
  GuardPolicy, NormalizedGuardPolicy, normalize_allow_only, normalize_fields,
  normalize_guard_policy, normalize_repos, normalize_scoped, validate_fields, validate_guard_policy,
}
use gh_aw_mcpg.Config.Policy.Normal.{normalize_allow_only_iff}
use gh_aw_mcpg.Config.Scope.{normalize_and_validate_scope_array, scope_loop}

-- the scope kind and the scope values of the flags
abbrev pub expected_scope : Bool → Str → Str → Str × List Str
expected_scope is_public owner repo =
    if is_public
    then (bytes "public", [])
    else (bytes "scoped", trim_space (scope_of owner repo) ∷ [])

one_scope :
    (s : Str) {kind : Str} {values : List Str}
    → normalize_scoped (string s ∷ []) ≡ ok (kind, values)
    → (kind ≡ bytes "scoped") × (values ≡ trim_space s ∷ [])
unfolding normalize_scoped normalize_and_validate_scope_array scope_loop sort_strings
one_scope s {kind} {values} h = ground arith

normalize_repos-repos_of :
    (is_public : Bool) (owner repo : Str) {kind : Str} {values : List Str}
    → normalize_repos (repos_of is_public owner repo) ≡ ok (kind, values)
    → (kind, values) ≡ expected_scope is_public owner repo
unfolding normalize_repos trim_space to_lower str_beq
normalize_repos-repos_of true owner repo {kind} {values} h = ground arith
normalize_repos-repos_of false owner repo {kind} {values} h =
    let (scoped, same) = one_scope (scope_of owner repo) h in rw (scoped, same) refl

-- the part behind the checks of the flags
finish_policy-normal :
    (is_public : Bool) (owner repo level : Str) {policy : GuardPolicy}
    → finish_policy (repos_of is_public owner repo) (some level) ≡ ok (some policy)
    → (n : NormalizedGuardPolicy) × (normalize_guard_policy (some policy) ≡ ok n)
      × ((n.scope_kind, n.scope_values) ≡ expected_scope is_public owner repo)
      × (has_key all_integrity_levels n.min_integrity ≡ true)
unfolding finish_policy validate_guard_policy validate_fields normalize_guard_policy
    normalize_fields
finish_policy-normal is_public owner repo level {policy} h =
    elim (Result-cases
      (normalize_allow_only (allow_only_of (repos_of is_public owner repo) level))) [
        | inl (n, e) ↦ (
          n,
          ground arith,
          normalize_repos-repos_of is_public owner repo ((normalize_allow_only_iff _ n).0 e).10,
          ground (
            arith,
            normalize_integrity_level-cases level n.min_integrity false
                ((normalize_allow_only_iff _ n).0 e).0,
          ),
        )
        | inr (failure, e) ↦ ground arith
      ]

-- A policy that the flags give is valid: it is normalised, to the scope of the flags and one of the
-- four levels.
pub build_allow_only_policy-normal :
    (is_public : Bool) (owner repo min_integrity : Str) {policy : GuardPolicy}
    → build_allow_only_policy is_public owner repo min_integrity ≡ ok (some policy)
    → (n : NormalizedGuardPolicy) × (normalize_guard_policy (some policy) ≡ ok n)
      × ((n.scope_kind, n.scope_values)
          ≡ expected_scope is_public (trim_space owner) (trim_space repo))
      × (has_key all_integrity_levels n.min_integrity ≡ true)
unfolding build_allow_only_policy finish_policy
build_allow_only_policy-normal is_public owner repo min_integrity {policy} h =
    elim (Option-cases
      (integrity_by_input (to_lower (remove_byte b'-' (trim_space min_integrity))))) [
        | inl e ↦ ground arith
        | inr (level, e) ↦
            finish_policy-normal is_public (trim_space owner) (trim_space repo) level (ground arith)
      ]

-- No policy comes back exactly when no scope and no level is given.
pub build_allow_only_policy-none :
    (is_public : Bool) (owner repo min_integrity : Str)
    → (build_allow_only_policy is_public owner repo min_integrity ≡ ok none) ↔ (
        (is_public ≡ false)
        × (trim_space owner ≡ [])
        × (trim_space repo ≡ [])
        × (min_integrity ≡ []))
unfolding build_allow_only_policy finish_policy
build_allow_only_policy-none is_public owner repo min_integrity = ground arith
