-- ===== src/Config/Codec/Encode.antt =====
-- The `MarshalJSON` methods of internal/config/guard_policy.go. A field marked `omitempty` is left out
-- when it is empty.
use gh_aw_mcpg.Common.{List, Option, [], none, some, ◌++◌, ◌∷◌}
use gh_aw_mcpg.Common.Int.{ℤ}
use gh_aw_mcpg.Common.Json.{Json, array, integer, object, string, to_fields, to_items}
use gh_aw_mcpg.Common.Text.{Str, bytes, str_eq}
use gh_aw_mcpg.Config.Policy.{AllowOnlyPolicy, GuardPolicy, Repos, decoded, string_slice}
use gh_aw_mcpg.Config.Scope.Array.{strings}
use gh_aw_mcpg.Config.Sink.{WriteSinkPolicy}

abbrev pub text_field : Str → Str → List (Str × Json)
text_field key [] = []
text_field key (c ∷ s) = (key, string (c ∷ s)) ∷ []

abbrev pub slice_field : Str → List Str → List (Str × Json)
slice_field key [] = []
slice_field key (s ∷ ss) = (key, array (to_items (strings (s ∷ ss)))) ∷ []

abbrev pub numbers : List (Str × ℤ) → List (Str × Json)
numbers [] = []
numbers ((key, n) ∷ m) = (key, integer n) ∷ numbers m

abbrev pub limits_field : Str → List (Str × ℤ) → List (Str × Json)
limits_field key [] = []
limits_field key (e ∷ m) = (key, object (to_fields (numbers (e ∷ m)))) ∷ []

abbrev pub encode_repos : Repos → Json
encode_repos (decoded value) = value
encode_repos (string_slice ss) = array (to_items (strings ss))

abbrev pub in_order : List (List (Str × Json)) → List (Str × Json)
in_order [] = []
in_order (fs ∷ rest) = fs ++ in_order rest

-- the fields of an `AllowOnlyPolicy` that may be left out
abbrev pub field_lists : AllowOnlyPolicy → List (List (Str × Json))
field_lists p =
    limits_field (bytes "tool-call-limits") p.tool_call_limits
    ∷ slice_field (bytes "blocked-users") p.blocked_users
    ∷ slice_field (bytes "refusal-labels") p.refusal_labels
    ∷ slice_field (bytes "approval-labels") p.approval_labels
    ∷ slice_field (bytes "trusted-users") p.trusted_users
    ∷ slice_field (bytes "endorsement-reactions") p.endorsement_reactions
    ∷ slice_field (bytes "disapproval-reactions") p.disapproval_reactions
    ∷ text_field (bytes "disapproval-integrity") p.disapproval_integrity
    ∷ text_field (bytes "endorser-min-integrity") p.endorser_min_integrity
    ∷ text_field (bytes "promotion-label") p.promotion_label
    ∷ text_field (bytes "demotion-label") p.demotion_label
    ∷ []

unfoldable pub rest_fields : AllowOnlyPolicy → List (Str × Json)
rest_fields p = in_order (field_lists p)

unfoldable pub allow_only_fields : AllowOnlyPolicy → List (Str × Json)
allow_only_fields p =
    (bytes "repos", encode_repos p.repos)
    ∷ (bytes "min-integrity", string p.min_integrity)
    ∷ rest_fields p

unfoldable pub encode_allow_only : AllowOnlyPolicy → Json
encode_allow_only p = object (to_fields (allow_only_fields p))

unfoldable pub encode_write_sink : WriteSinkPolicy → Json
encode_write_sink ws = object (
    to_fields (
      (bytes "accept", array (to_items (strings ws.accept)))
      ∷ text_field (bytes "sink-visibility") ws.sink_visibility))

abbrev pub optional_field {ℓ} : {A : Type ℓ} → Str → (A → Json) → Option A → List (Str × Json)
optional_field key encode none = []
optional_field key encode (some a) = (key, encode a) ∷ []

-- the fields of a `GuardPolicy`
unfoldable pub guard_policy_fields : GuardPolicy → List (Str × Json)
guard_policy_fields policy =
    optional_field (bytes "allow-only") encode_allow_only policy.allow_only
    ++ optional_field (bytes "write-sink") encode_write_sink policy.write_sink

unfoldable pub encode_guard_policy : GuardPolicy → Json
encode_guard_policy policy = object (to_fields (guard_policy_fields policy))
