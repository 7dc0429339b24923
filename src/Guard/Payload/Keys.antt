-- ===== src/Guard/Payload/Keys.antt =====
-- Which policies of internal/config/guard_policy.go the check of the payload lets through.
use gh_aw_mcpg.Common.{
  Bool, List, Option, [], ap, arith, false, has_key, is_nil, none, refl, some, true, ◌&&◌, ◌++◌,
  ◌∙◌, ◌∷◌, ◌≡◌, ◌⊎◌,
}
use gh_aw_mcpg.Common.Dict.{lookup}
use gh_aw_mcpg.Common.Int.{ℤ}
use gh_aw_mcpg.Common.Json.{Json, entries, to_fields}
use gh_aw_mcpg.Common.Result.{err}
use gh_aw_mcpg.Common.Text.{Str, bytes, str_beq, str_eq}
use gh_aw_mcpg.Config.Codec.Encode.{
  allow_only_fields, encode_allow_only, encode_guard_policy, field_lists, guard_policy_fields,
  in_order, limits_field, rest_fields, text_field,
}
use gh_aw_mcpg.Config.Codec.RoundTrip.{entries-to_fields}
use gh_aw_mcpg.Config.Policy.{AllowOnlyPolicy}
use gh_aw_mcpg.Guard.Payload.{
  PayloadError, allow_only_entry, allow_only_keys, as_map, build_strict_label_agent_payload,
  found_allow_only, guard_policy_to_map, has_entry, has_legacy_envelope, has_only_keys,
  integrity_entry, required, validated_allow_only,
}

has_only_keys-append :
    (allowed : List Str) (m n : List (Str × Json))
    → has_only_keys allowed (m ++ n) ≡ (has_only_keys allowed m && has_only_keys allowed n)
unfolding has_only_keys
has_only_keys-append allowed [] n = refl
has_only_keys-append allowed ((key, value) ∷ m) n = ground (arith, has_only_keys-append allowed m n)

abbrev all_known : List Str → List (List (Str × Json)) → Bool
all_known allowed [] = true
all_known allowed (fs ∷ rest) = has_only_keys allowed fs && all_known allowed rest

has_only_keys-in_order :
    (allowed : List Str) (fss : List (List (Str × Json)))
    → has_only_keys allowed (in_order fss) ≡ all_known allowed fss
unfolding has_only_keys
has_only_keys-in_order allowed [] = refl
has_only_keys-in_order allowed (fs ∷ rest) =
    has_only_keys-append allowed fs (in_order rest)
    ∙ ap (λ b. has_only_keys allowed fs && b) (has_only_keys-in_order allowed rest)

-- one of the fields that the check does not know has a value
abbrev pub HasUnknown : AllowOnlyPolicy → Type 0
HasUnknown p =
    (is_nil p.tool_call_limits ≡ false)
    ⊎ (is_nil p.promotion_label ≡ false)
    ⊎ (is_nil p.demotion_label ≡ false)

limits_unknown :
    (m : List (Str × ℤ))
    → is_nil m ≡ false
    → has_only_keys allow_only_keys (limits_field (bytes "tool-call-limits") m) ≡ false
unfolding has_only_keys has_key str_beq
limits_unknown [] h = ground arith
limits_unknown (e ∷ m) h = refl

promotion_unknown :
    (s : Str)
    → is_nil s ≡ false
    → has_only_keys allow_only_keys (text_field (bytes "promotion-label") s) ≡ false
unfolding has_only_keys has_key str_beq
promotion_unknown [] h = ground arith
promotion_unknown (c ∷ s) h = refl

demotion_unknown :
    (s : Str)
    → is_nil s ≡ false
    → has_only_keys allow_only_keys (text_field (bytes "demotion-label") s) ≡ false
unfolding has_only_keys has_key str_beq
demotion_unknown [] h = ground arith
demotion_unknown (c ∷ s) h = refl

and_false : (b : Bool) → (b && false) ≡ false
and_false b = ground arith

rest_fields_unknown :
    (p : AllowOnlyPolicy) → HasUnknown p → has_only_keys allow_only_keys (rest_fields p) ≡ false
unfolding rest_fields
rest_fields_unknown p h =
    has_only_keys-in_order allow_only_keys (field_lists p)
    ∙ ground (
      arith,
      limits_unknown p.tool_call_limits,
      promotion_unknown p.promotion_label,
      demotion_unknown p.demotion_label,
    )

entries_of_policy :
    (p : AllowOnlyPolicy) → entries (to_fields (allow_only_fields p)) ≡ allow_only_fields p
entries_of_policy p = entries-to_fields (allow_only_fields p)

validated_allow_only_unknown :
    (bots : Option Json) (p : AllowOnlyPolicy)
    → HasUnknown p
    → validated_allow_only bots (allow_only_fields p) ≡ err PayloadError.unexpected_key
unfolding validated_allow_only allow_only_fields has_only_keys lookup required integrity_entry
    str_beq has_key
validated_allow_only_unknown bots p h = rw (rest_fields_unknown p h) refl

-- A guard policy with a limit on the calls of a tool, a promotion label or a demotion label is always
-- refused, valid or not.
pub build_strict_label_agent_payload-unknown :
    (p : AllowOnlyPolicy)
    → HasUnknown p
    → build_strict_label_agent_payload
        (encode_guard_policy (record { allow_only = some p; write_sink = none }))
      ≡ err PayloadError.unexpected_key
unfolding build_strict_label_agent_payload encode_guard_policy guard_policy_fields encode_allow_only
    guard_policy_to_map has_legacy_envelope has_entry found_allow_only allow_only_entry as_map
    lookup str_beq has_only_keys has_key
build_strict_label_agent_payload-unknown p h =
    rw (entries_of_policy p, validated_allow_only_unknown none p h) refl
