-- ===== src/Config/Codec/RoundTrip/Whole.antt =====
-- The fields of an encoded policy, decoded in turn.
use gh_aw_mcpg.Common.{List, Option, [], none, refl, some, ◌∙◌, ◌∷◌, ◌≡◌}
use gh_aw_mcpg.Common.Json.{entries, to_fields}
use gh_aw_mcpg.Common.Result.{Result, err, ok}
use gh_aw_mcpg.Common.Text.{Str, bytes, str_beq, str_eq, to_lower}
use gh_aw_mcpg.Config.Build.{allow_only_of}
use gh_aw_mcpg.Config.Codec.{
  decode_allow_only, decode_field, decode_guard_policy, decode_loop, decode_messages,
  decode_sink_fields, decode_write_sink, find_messages, zero_policy,
}
use gh_aw_mcpg.Config.Codec.Encode.{
  allow_only_fields, encode_allow_only, encode_guard_policy, encode_repos, encode_write_sink,
  guard_policy_fields, limits_field, rest_fields, slice_field, text_field,
}
use gh_aw_mcpg.Config.Codec.RoundTrip.{
  IsEncodable, decode_loop-limits_field, decode_loop-slice_field, decode_loop-text_field,
  decode_loop_then, decode_strings-array, entries-to_fields,
}
use gh_aw_mcpg.Config.Codec.Values.{
  decode_limits, decode_object, decode_string, string_list_or_expression,
}
use gh_aw_mcpg.Config.Failure.{PolicyError, non_empty_string}
use gh_aw_mcpg.Config.Policy.{AllowOnlyPolicy, GuardPolicy, decoded}
use gh_aw_mcpg.Config.Sink.{WriteSinkPolicy}

module _ (p : AllowOnlyPolicy) where
  -- the policy after each field in turn
  abbrev start : AllowOnlyPolicy
  start = allow_only_of (decoded (encode_repos p.repos)) p.min_integrity

  abbrev with_limits : AllowOnlyPolicy
  with_limits = record start { tool_call_limits = p.tool_call_limits }

  abbrev with_blocked_users : AllowOnlyPolicy
  with_blocked_users = record with_limits { blocked_users = p.blocked_users }

  abbrev with_refusal_labels : AllowOnlyPolicy
  with_refusal_labels = record with_blocked_users { refusal_labels = p.refusal_labels }

  abbrev with_approval_labels : AllowOnlyPolicy
  with_approval_labels = record with_refusal_labels { approval_labels = p.approval_labels }

  abbrev with_trusted_users : AllowOnlyPolicy
  with_trusted_users = record with_approval_labels { trusted_users = p.trusted_users }

  abbrev with_endorsement_reactions : AllowOnlyPolicy
  with_endorsement_reactions = record with_trusted_users {
    endorsement_reactions = p.endorsement_reactions;
  }

  abbrev with_disapproval_reactions : AllowOnlyPolicy
  with_disapproval_reactions = record with_endorsement_reactions {
    disapproval_reactions = p.disapproval_reactions;
  }

  abbrev with_disapproval_integrity : AllowOnlyPolicy
  with_disapproval_integrity = record with_disapproval_reactions {
    disapproval_integrity = p.disapproval_integrity;
  }

  abbrev with_endorser_min_integrity : AllowOnlyPolicy
  with_endorser_min_integrity = record with_disapproval_integrity {
    endorser_min_integrity = p.endorser_min_integrity;
  }

  abbrev with_promotion_label : AllowOnlyPolicy
  with_promotion_label = record with_endorser_min_integrity { promotion_label = p.promotion_label }

  abbrev with_demotion_label : AllowOnlyPolicy
  with_demotion_label = record with_promotion_label { demotion_label = p.demotion_label }

  decode_loop_rest : IsEncodable p → decode_loop (rest_fields p) start ≡ ok with_demotion_label
  unfolding decode_loop rest_fields decode_field string_list_or_expression decode_limits
      decode_string to_lower str_beq
  decode_loop_rest e =
      decode_loop_then (limits_field (bytes "tool-call-limits") p.tool_call_limits) _ start
        with_limits
        (decode_loop-limits_field (λ m. record start { tool_call_limits = m }) (λ vs. refl)
          p.tool_call_limits e.2 e.3)
      ∙ decode_loop_then (slice_field (bytes "blocked-users") p.blocked_users) _ with_limits
          with_blocked_users
          (decode_loop-slice_field (bytes "blocked-users")
            (λ v. record with_limits { blocked_users = v }) (λ v. refl) p.blocked_users)
      ∙ decode_loop_then (slice_field (bytes "refusal-labels") p.refusal_labels) _
          with_blocked_users with_refusal_labels
          (decode_loop-slice_field (bytes "refusal-labels")
            (λ v. record with_blocked_users { refusal_labels = v }) (λ v. refl) p.refusal_labels)
      ∙ decode_loop_then (slice_field (bytes "approval-labels") p.approval_labels) _
          with_refusal_labels with_approval_labels
          (decode_loop-slice_field (bytes "approval-labels")
            (λ v. record with_refusal_labels { approval_labels = v }) (λ v. refl) p.approval_labels)
      ∙ decode_loop_then (slice_field (bytes "trusted-users") p.trusted_users) _
          with_approval_labels with_trusted_users
          (decode_loop-slice_field (bytes "trusted-users")
            (λ v. record with_approval_labels { trusted_users = v }) (λ v. refl) p.trusted_users)
      ∙ decode_loop_then (slice_field (bytes "endorsement-reactions") p.endorsement_reactions) _
          with_trusted_users with_endorsement_reactions
          (decode_loop-slice_field (bytes "endorsement-reactions")
            (λ v. record with_trusted_users { endorsement_reactions = v }) (λ v. refl)
            p.endorsement_reactions)
      ∙ decode_loop_then (slice_field (bytes "disapproval-reactions") p.disapproval_reactions) _
          with_endorsement_reactions with_disapproval_reactions
          (decode_loop-slice_field (bytes "disapproval-reactions")
            (λ v. record with_endorsement_reactions { disapproval_reactions = v }) (λ v. refl)
            p.disapproval_reactions)
      ∙ decode_loop_then (text_field (bytes "disapproval-integrity") p.disapproval_integrity) _
          with_disapproval_reactions with_disapproval_integrity
          (decode_loop-text_field (bytes "disapproval-integrity")
            (λ v. record with_disapproval_reactions { disapproval_integrity = v }) (λ v. refl)
            p.disapproval_integrity)
      ∙ decode_loop_then (text_field (bytes "endorser-min-integrity") p.endorser_min_integrity) _
          with_disapproval_integrity with_endorser_min_integrity
          (decode_loop-text_field (bytes "endorser-min-integrity")
            (λ v. record with_disapproval_integrity { endorser_min_integrity = v }) (λ v. refl)
            p.endorser_min_integrity)
      ∙ decode_loop_then (text_field (bytes "promotion-label") p.promotion_label) _
          with_endorser_min_integrity with_promotion_label
          (decode_loop-text_field (bytes "promotion-label")
            (λ v. record with_endorser_min_integrity { promotion_label = v }) (λ v. refl)
            p.promotion_label)
      ∙ decode_loop_then (text_field (bytes "demotion-label") p.demotion_label) []
          with_promotion_label with_demotion_label
          (decode_loop-text_field (bytes "demotion-label")
            (λ v. record with_promotion_label { demotion_label = v }) (λ v. refl) p.demotion_label)

  decode_allow_only-start :
      decode_loop (allow_only_fields p) zero_policy ≡ decode_loop (rest_fields p) start
  unfolding decode_loop allow_only_fields decode_field decode_string to_lower str_beq
  decode_allow_only-start = refl

-- the policy with its scopes as a decoded array
abbrev pub through_json : AllowOnlyPolicy → AllowOnlyPolicy
through_json p = record p { repos = decoded (encode_repos p.repos) }

-- A policy that is encoded and decoded again is the same, but for scopes given as a `[]string`, which
-- come back as a decoded array.
pub decode_allow_only-encode_allow_only :
    (p : AllowOnlyPolicy)
    → IsEncodable p
    → decode_allow_only (encode_allow_only p) ≡ ok (through_json p)
unfolding decode_allow_only encode_allow_only decode_object non_empty_string
decode_allow_only-encode_allow_only p e =
    rw
      (
        entries-to_fields (allow_only_fields p),
        decode_allow_only-start p,
        decode_loop_rest p e,
        e.0,
        e.1,
      )
      refl

decode_visibility :
    (accept : List Str) (v : Str)
    → decode_sink_fields
        (entries (to_fields (text_field (bytes "sink-visibility") v)))
        (record { accept = accept; sink_visibility = [] })
      ≡ ok (record { accept = accept; sink_visibility = v })
unfolding decode_sink_fields decode_string to_lower str_beq
decode_visibility accept [] = refl
decode_visibility accept (c ∷ v) = refl

decode_write_sink-encode_write_sink :
    (ws : WriteSinkPolicy) → decode_write_sink (encode_write_sink ws) ≡ ok ws
unfolding decode_write_sink encode_write_sink decode_object decode_sink_fields to_lower str_beq
decode_write_sink-encode_write_sink ws =
    rw (decode_strings-array ws.accept) (decode_visibility ws.accept ws.sink_visibility)

-- what an encoded guard policy decodes to: exactly one of the two policies may be there
abbrev pub expected_policy :
    Option AllowOnlyPolicy → Option WriteSinkPolicy → Result PolicyError GuardPolicy
expected_policy none none = err PolicyError.missing_key
expected_policy (some p) none =
    ok (record { allow_only = some (through_json p); write_sink = none })
expected_policy none (some ws) = ok (record { allow_only = none; write_sink = some ws })
expected_policy (some p) (some ws) = err PolicyError.both_policies

abbrev pub IsEncodablePolicy : Option AllowOnlyPolicy → Type 0
IsEncodablePolicy none = Unit
IsEncodablePolicy (some p) = IsEncodable p

decode_fields :
    (allow_only : Option AllowOnlyPolicy) (write_sink : Option WriteSinkPolicy)
    → IsEncodablePolicy allow_only
    → decode_guard_policy
        (encode_guard_policy (record { allow_only = allow_only; write_sink = write_sink }))
      ≡ expected_policy allow_only write_sink
unfolding decode_guard_policy encode_guard_policy guard_policy_fields decode_object find_messages
    decode_messages to_lower str_beq
decode_fields none none e = refl
decode_fields (some p) none e = rw (decode_allow_only-encode_allow_only p e) refl
decode_fields none (some ws) e = rw (decode_write_sink-encode_write_sink ws) refl
decode_fields (some p) (some ws) e = refl

-- A guard policy whose allow-only part, if any, can be encoded (its scopes and level are there, its
-- limits are distinct and have 64 bits) is the same policy once it is encoded and decoded again, but
-- for scopes given as a `[]string`, which come back as a decoded array; with none or both of its parts
-- it is refused.
pub decode_guard_policy-encode_guard_policy :
    (policy : GuardPolicy)
    → IsEncodablePolicy policy.allow_only
    → decode_guard_policy (encode_guard_policy policy)
      ≡ expected_policy policy.allow_only policy.write_sink
decode_guard_policy-encode_guard_policy policy e =
    decode_fields policy.allow_only policy.write_sink e
