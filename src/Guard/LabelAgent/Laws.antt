-- ===== src/Guard/LabelAgent/Laws.antt =====
-- What an initialisation of internal/guard/label_agent.go does to an agent.
use gh_aw_mcpg.Common.{
  Bool, List, Option, Option-cases, [], ap, arith, false, has_key, inl, inr, is_nil, not, refl,
  some, true, ◌&&◌, ◌==◌, ◌||◌, ◌∙◌, ◌∷◌, ◌≡◌, ◌⊎◌,
}
use gh_aw_mcpg.Common.Json.{Json}
use gh_aw_mcpg.Common.Result.{Result, Result-cases, err, ok}
use gh_aw_mcpg.Common.Text.{Str, str_beq_iff, str_eq, trim_space}
use gh_aw_mcpg.Difc.Agent.{AgentLabels, add_integrity_tags, add_secrecy_tags}
use gh_aw_mcpg.Difc.Label.{strings_to_tags}
use gh_aw_mcpg.Difc.Mode.{EnforcementMode, parse_enforcement_mode}
use gh_aw_mcpg.Difc.PathLabels.{found}
use gh_aw_mcpg.Difc.TagSet.{Tag, contains}
use gh_aw_mcpg.Difc.TagSet.Laws.{contains-add_all}
use gh_aw_mcpg.Guard.Answer.{
  LabelAgentResult, answered_map, decode_result_fields, is_known_mode, no_result, or_bad_result,
  parse_label_agent_response,
}
use gh_aw_mcpg.Guard.LabelAgent.{
  LabelAgentError, applied, apply_label_agent_result, apply_labels, effective_mode, label_agent,
  run_label_agent, run_label_agent_init,
}
use gh_aw_mcpg.Guard.Payload.{
  build_label_agent_payload, build_strict_label_agent_payload, normalize_policy_payload,
}

-- A response that is accepted has a mode that is known, and it is not empty.
parse_label_agent_response-mode :
    (answer : Option Json) (r : LabelAgentResult)
    → parse_label_agent_response answer ≡ ok r
    → (is_nil (trim_space r.difc_mode) ≡ false) × (is_known_mode r.difc_mode ≡ true)
unfolding parse_label_agent_response
parse_label_agent_response-mode answer r h = elim (Result-cases (answered_map answer)) [
  | inr (e, bad) ↦ ground arith
  | inl (raw, good) ↦ elim (Result-cases (or_bad_result (decode_result_fields raw no_result))) [
    | inr (e, bad) ↦ ground arith
    | inl (result, found) ↦
        let same : r ≡ result = ground arith in rw same (ground arith, ground arith)
  ]
]

is_nil-trim_space : (s : Str) → is_nil (trim_space s) ≡ false → is_nil s ≡ false
unfolding trim_space
is_nil-trim_space [] h = h
is_nil-trim_space (c ∷ s) h = refl

apply_label_agent_result_known :
    (r : LabelAgentResult) (a : AgentLabels) (default_mode : EnforcementMode)
    → is_nil (trim_space r.difc_mode) ≡ false
    → is_known_mode r.difc_mode ≡ true
    → apply_label_agent_result r a default_mode
      ≡ ((parse_enforcement_mode r.difc_mode).0, apply_labels a r, true)
unfolding apply_label_agent_result effective_mode is_known_mode
apply_label_agent_result_known r a default_mode full known =
    ground (arith, is_nil-trim_space r.difc_mode full)

-- whether one of the texts is the tag, which is not empty, with white space around it
abbrev pub is_named : Tag → List Str → Bool
is_named t [] = false
is_named t (text ∷ rest) = (trim_space text == t && not (is_nil t)) || is_named t rest

-- The labels of the agent after a result: those it had, and those of the result.
abbrev pub Labelled : AgentLabels → LabelAgentResult → AgentLabels → Type 0
Labelled a r a' =
    (a'.agent_id ≡ a.agent_id)
    × ((t : Tag)
        → (contains a'.secrecy t ≡ (is_named t r.agent.secrecy || contains a.secrecy t))
          × (contains a'.integrity t ≡ (is_named t r.agent.integrity || contains a.integrity t)))

has_key-strings_to_tags : (ss : List Str) (t : Tag) → has_key (strings_to_tags ss) t ≡ is_named t ss
unfolding strings_to_tags has_key
has_key-strings_to_tags [] t = refl
has_key-strings_to_tags (text ∷ rest) t =
    ground (arith, has_key-strings_to_tags rest t, str_beq_iff (trim_space text) t)

apply_labels-Labelled : (a : AgentLabels) (r : LabelAgentResult) → Labelled a r (apply_labels a r)
unfolding apply_labels add_secrecy_tags add_integrity_tags
apply_labels-Labelled a r = (
  refl,
  λ t. (
    contains-add_all a.secrecy (strings_to_tags r.agent.secrecy) t
        ∙ ap (λ b. b || contains a.secrecy t) (has_key-strings_to_tags r.agent.secrecy t),
    contains-add_all a.integrity (strings_to_tags r.agent.integrity) t
        ∙ ap (λ b. b || contains a.integrity t) (has_key-strings_to_tags r.agent.integrity t),
  ),
)

module _ (unmarshal : Str → Option Json)
    (call_wasm : List (Str × Json) → Option (Option Json)) where
  -- the guard was asked with the payload of the policy, and answered with this result
  abbrev pub Answers : Json → LabelAgentResult → Type 0
  Answers policy r =
      (normalized : Json) × (input : List (Str × Json)) × (answer : Option Json)
      × (normalize_policy_payload unmarshal policy ≡ ok normalized)
      × (build_strict_label_agent_payload normalized ≡ ok input)
      × (call_wasm input ≡ some answer)
      × (parse_label_agent_response answer ≡ ok r)

  label_agent-Answers :
      (policy : Json) (given : Option LabelAgentResult)
      → label_agent unmarshal call_wasm policy ≡ ok given
      → (r : LabelAgentResult) × (given ≡ some r) × Answers policy r
  unfolding label_agent
  label_agent-Answers policy given h =
      elim (Result-cases (normalize_policy_payload unmarshal policy)) [
        | inr (e, bad) ↦ ground arith
        | inl (normalized, n) ↦ elim (Result-cases (build_strict_label_agent_payload normalized)) [
          | inr (e, bad) ↦ ground arith
          | inl (input, i) ↦ elim (Option-cases (call_wasm input)) [
            | inl failed ↦ ground arith
            | inr (answer, c) ↦ elim (Result-cases (parse_label_agent_response answer)) [
              | inr (e, bad) ↦ ground arith
              | inl (r, p) ↦ (r, ground arith, (normalized, input, answer, n, i, c, p))
            ]
          ]
        ]
      ]

  Answers-label_agent :
      (policy : Json) (r : LabelAgentResult)
      → Answers policy r
      → label_agent unmarshal call_wasm policy ≡ ok (some r)
  unfolding label_agent
  Answers-label_agent policy r (normalized, input, answer, n, i, c, p) = ground arith

  -- What may become of an initialisation: an error that leaves the agent and the mode as they were,
  -- where the guard gave no answer that is accepted, or the guard's answer, whose labels are added and
  -- whose mode, one of the three by name, is in force.
  abbrev pub Outcome :
      Json
      → AgentLabels
      → EnforcementMode
      → EnforcementMode × AgentLabels × Result LabelAgentError LabelAgentResult
      → Type 0
  Outcome payload a default_mode out =
      (((r : LabelAgentResult) → ¬ Answers payload r)
        × ((e : LabelAgentError) × (out ≡ (default_mode, a, err e))))
      ⊎ ((r : LabelAgentResult) × Answers payload r
          × (a' : AgentLabels) × (out ≡ ((parse_enforcement_mode r.difc_mode).0, a', ok r))
          × Labelled a r a'
          × (is_known_mode r.difc_mode ≡ true))

  -- If the guard, asked with the payload of the policy, gives an answer that is accepted, then exactly
  -- the labels of the answer are added to the agent's and its mode, which is known, is in force. If not,
  -- there is an error, and agent and mode are as they were.
  pub run_label_agent_init-Outcome :
      (policy : Json) (trusted_bots trusted_users : List Str) (a : AgentLabels)
      (default_mode : EnforcementMode)
      → Outcome (build_label_agent_payload policy trusted_bots trusted_users) a default_mode (
          run_label_agent_init unmarshal call_wasm policy trusted_bots trusted_users a default_mode)
  unfolding run_label_agent_init run_label_agent applied
  run_label_agent_init-Outcome policy trusted_bots trusted_users a default_mode =
      let payload = build_label_agent_payload policy trusted_bots trusted_users in
      elim (Result-cases (label_agent unmarshal call_wasm payload)) [
        | inr (e, bad) ↦ inl (
          λ r. λ answers. ground (arith, Answers-label_agent payload r answers),
          (LabelAgentError.guard_failed, rw bad refl),
        )
        | inl (given, good) ↦
            let (r, is_some, answers) = label_agent-Answers payload given good in
            let (full, known) = parse_label_agent_response-mode answers.2 r answers.6 in
            inr (
              r,
              answers,
              apply_labels a r,
              rw (good, is_some, apply_label_agent_result_known r a default_mode full known) refl,
              apply_labels-Labelled a r,
              known,
            )
      ]
