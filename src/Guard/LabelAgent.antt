-- ===== src/Guard/LabelAgent.antt =====
-- How a guard sets the labels of an agent: internal/guard/label_agent.go, and `LabelAgent` of
-- wasm_labels.go.
pub mod Laws
use gh_aw_mcpg.Common.{
  Bool, List, Option, [], arith, false, if◌then◌else◌, is_nil, none, refl, some, true,
}
use gh_aw_mcpg.Common.Json.{Json}
use gh_aw_mcpg.Common.Result.{Result, err, ok}
use gh_aw_mcpg.Common.Text.{Str, bytes, str_eq}
use gh_aw_mcpg.Difc.Agent.{AgentLabels, add_integrity_tags, add_secrecy_tags}
use gh_aw_mcpg.Difc.Flow.{integrity, secrecy}
use gh_aw_mcpg.Difc.Label.{strings_to_tags}
use gh_aw_mcpg.Difc.Mode.{EnforcementMode, parse_enforcement_mode}
use gh_aw_mcpg.Guard.Answer.{LabelAgentResult, parse_label_agent_response}
use gh_aw_mcpg.Guard.Payload.{
  build_label_agent_payload, build_strict_label_agent_payload, normalize_policy_payload,
}

pub data LabelAgentError : Type 0 where
  guard_failed nil_result invalid_result : LabelAgentError

-- what `LabelAgent` of a guard returns; `none` is a nil result without an error
abbrev pub Answered : Type 0
Answered = Result Str (Option LabelAgentResult)

unfoldable pub empty_agent_labels_result : Str → LabelAgentResult
empty_agent_labels_result mode = record {
  agent = record { secrecy = []; integrity = [] };
  difc_mode = mode;
  normalized_policy = [];
}

pub apply_labels : AgentLabels → LabelAgentResult → AgentLabels
apply_labels a r =
    add_integrity_tags (add_secrecy_tags a (strings_to_tags r.agent.secrecy))
      (strings_to_tags r.agent.integrity)

-- the mode, or `none` for one that is not known
pub effective_mode : Str → EnforcementMode → Option EnforcementMode
effective_mode mode default_mode =
    if is_nil mode then some default_mode else elim (parse_enforcement_mode mode).1 [
      | none ↦ some (parse_enforcement_mode mode).0
      | some text ↦ none
    ]

-- The mode and the labels after it, and whether there was no error.
pub apply_label_agent_result :
    LabelAgentResult → AgentLabels → EnforcementMode → EnforcementMode × AgentLabels × Bool
apply_label_agent_result r a default_mode = elim (effective_mode r.difc_mode default_mode) [
  | none ↦ (default_mode, a, false)
  | some mode ↦ (mode, apply_labels a r, true)
]

pub applied :
    LabelAgentResult
    → AgentLabels
    → EnforcementMode
    → EnforcementMode × AgentLabels × Bool
    → EnforcementMode × AgentLabels × Result LabelAgentError LabelAgentResult
applied r a default_mode (mode, labels, true) = (mode, labels, ok r)
applied r a default_mode (mode, labels, false) = (default_mode, labels, err invalid_result)

pub run_label_agent :
    Answered
    → AgentLabels
    → EnforcementMode
    → EnforcementMode × AgentLabels × Result LabelAgentError LabelAgentResult
run_label_agent (err e) a default_mode = (default_mode, a, err guard_failed)
run_label_agent (ok none) a default_mode = (default_mode, a, err nil_result)
run_label_agent (ok (some r)) a default_mode =
    applied r a default_mode (apply_label_agent_result r a default_mode)

-- The guard that runs in WebAssembly. The runtime is a parameter: what the module answers to a payload,
-- `none` for a failed call or an empty answer.
module _ (unmarshal : Str → Option Json)
    (call_wasm : List (Str × Json) → Option (Option Json)) where
  pub label_agent : Json → Answered
  label_agent policy = elim (normalize_policy_payload unmarshal policy) [
    | err e ↦ err (bytes "policy")
    | ok normalized ↦ elim (build_strict_label_agent_payload normalized) [
      | err e ↦ err (bytes "payload")
      | ok input ↦ elim (call_wasm input) [
        | none ↦ err (bytes "call")
        | some answer ↦ elim (parse_label_agent_response answer) [
          | err e ↦ err (bytes "answer")
          | ok r ↦ ok (some r)
        ]
      ]
    ]
  ]

  pub run_label_agent_init :
      Json
      → List Str
      → List Str
      → AgentLabels
      → EnforcementMode
      → EnforcementMode × AgentLabels × Result LabelAgentError LabelAgentResult
  run_label_agent_init policy trusted_bots trusted_users a default_mode =
      run_label_agent (label_agent (build_label_agent_payload policy trusted_bots trusted_users)) a
        default_mode
