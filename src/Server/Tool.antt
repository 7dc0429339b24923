-- ===== src/Server/Tool.antt =====
-- internal/server/unified.go, `callBackendTool`: a call of a backend's tool through all phases, from
-- the budget of the session on. The allowed tools and the guard's session are checked before. What the
-- backend answers is an argument. The agent is taken not to change between the phases.
use gh_aw_mcpg.Common.{
  ℕ, Bool, true, false, not, ◌&&◌, ◌++◌, Option, none, some, eqb, if◌then◌else◌,
}
use gh_aw_mcpg.Common.Text.{Str, bytes, has_prefix}
use gh_aw_mcpg.Difc.Resource.{
  FilteredCollectionLabeledData, get_accessible_count, get_filtered_count,
}
use gh_aw_mcpg.Difc.Evaluator.{EvaluationResult}
use gh_aw_mcpg.Difc.Pipeline.{
  LabeledData, FinalResult, FilterResult, filter_and_convert_labeled_data,
}
use gh_aw_mcpg.Difc.Registry.{AgentRegistry}
use gh_aw_mcpg.Guard.{ResourceOutcome, ResponseOutcome, response, response_error}
use gh_aw_mcpg.Guard.Pipeline.{
  PipelineInput, PipelinePreResult, PreOutcome, labeling_failed, access_denied, proceeds,
  run_pipeline_pre_phases, run_pipeline_phase4, run_pipeline_phase6,
}
use gh_aw_mcpg.Server.CircuitBreaker.{
  CircuitBreaker, ErrCircuitOpen, allow, record_success, record_rate_limit,
}
use gh_aw_mcpg.Server.ToolLimit.{CallBudget, enforce_tool_call_limit}
pub mod Laws
pub mod Policy
pub mod Taint
pub mod Leak

-- The part of the gateway that the calls of one session to one server share: the budget of the session
-- and server, and the server's breaker, which the source keeps in maps, and the registry of all agents.
pub record Gateway : Type 0 where
  pub budget : Option CallBudget
  pub registry : AgentRegistry
  pub breaker : CircuitBreaker

pub data BackendAnswer (D : Type 0) : Type 0 where
  transport_failure : Str → BackendAnswer D
  rate_limit_answer : ℕ → Str → BackendAnswer D
  answer : D → BackendAnswer D

-- what the caller gets; `panics` is a response with an item that has no labels
pub data ToolOutcome (D : Type 0) : Type 0 where
  limit_reached panics policy_violation single_item_filtered : ToolOutcome D
  guard_error backend_error rate_limit_error : Str → ToolOutcome D
  denied : EvaluationResult → ToolOutcome D
  circuit_rejected : ErrCircuitOpen → ToolOutcome D
  filtered_result : Option (FinalResult D) → ToolOutcome D
  backend_result : D → ToolOutcome D

pub is_singular_read_tool : Str → Bool
is_singular_read_tool tool =
    not (has_prefix (bytes "list_") tool) && not (has_prefix (bytes "search_") tool)

-- whether the only item of a single read was filtered
single_filtered : {D : Type 0} → Str → Option (FilteredCollectionLabeledData D) → Bool
single_filtered tool none = false
single_filtered tool (some f) =
    is_singular_read_tool tool && (eqb (get_accessible_count f) 0 && eqb (get_filtered_count f) 1)

-- the result once nothing blocks it
final_result : {D : Type 0} → D → Option (LabeledData D) → FilterResult D → ToolOutcome D
final_result result none f = backend_result result
final_result result (some labels) f = filtered_result f.final_result

module _ {Args D : Type 0} (input : PipelineInput Args D) where
  -- the end of phase 5, and phase 6
  finish :
      Gateway
      → PipelinePreResult
      → D
      → Option (LabeledData D)
      → FilterResult D
      → Gateway × ToolOutcome D
  unfolding single_filtered final_result
  finish g pre result labels f =
      if f.blocked
      then (g, policy_violation)
      else if single_filtered input.tool_name f.filtered
      then (g, single_item_filtered)
      else (
        record g {
          registry =
              run_pipeline_phase6 g.registry input.agent_id pre labels input.enforcement_mode;
        },
        final_result result labels f,
      )

  -- phase 5
  filter_response : Gateway → PipelinePreResult → D → ResponseOutcome D → Gateway × ToolOutcome D
  unfolding finish
  filter_response g pre result (response_error err) =
      (g, guard_error (bytes "response labeling failed: " ++ err))
  filter_response g pre result (response labels) =
      elim (filter_and_convert_labeled_data input.evaluator pre.agent_labels.secrecy
        pre.agent_labels.integrity pre.operation labels input.enforcement_mode) [
          | none ↦ (g, panics)
          | some f ↦ finish g pre result labels f
        ]

  -- after the breaker has let the call through
  handle_answer : Gateway → PipelinePreResult → ℕ → BackendAnswer D → Gateway × ToolOutcome D
  unfolding filter_response
  handle_answer g pre now (transport_failure err) = (g, backend_error err)
  handle_answer g pre now (rate_limit_answer reset_at err) =
      (record g { breaker = record_rate_limit g.breaker reset_at now }, rate_limit_error err)
  handle_answer g pre now (answer result) =
      filter_response (record g { breaker = record_success g.breaker }) pre result
        (run_pipeline_phase4 input pre result)

  -- phase 3
  execute :
      Gateway
      → PipelinePreResult
      → ℕ
      → BackendAnswer D
      → CircuitBreaker × Option ErrCircuitOpen
      → Gateway × ToolOutcome D
  unfolding handle_answer
  execute g pre answered backend (cb, some err) = (record g { breaker = cb }, circuit_rejected err)
  execute g pre answered backend (cb, none) =
      handle_answer (record g { breaker = cb }) pre answered backend

  after_pre_phases : Gateway → ℕ → ℕ → BackendAnswer D → PreOutcome → Gateway × ToolOutcome D
  unfolding execute
  after_pre_phases g asked answered backend (labeling_failed err) =
      (g, guard_error (bytes "guard labeling failed: " ++ err))
  after_pre_phases g asked answered backend (access_denied result r a) = (g, denied result)
  after_pre_phases g asked answered backend (proceeds pre) =
      execute g pre answered backend (allow g.breaker asked)

  in_budget : Gateway → ℕ → ℕ → BackendAnswer D → Option CallBudget × Bool → Gateway × ToolOutcome D
  unfolding after_pre_phases
  in_budget g asked answered backend (budget, false) = (record g { budget = budget }, limit_reached)
  in_budget g asked answered backend (budget, true) =
      let (registry, outcome) = run_pipeline_pre_phases g.registry input in
      after_pre_phases (record g { budget = budget; registry = registry }) asked answered backend
        outcome

  -- `asked` is the instant at the breaker, `answered` that at the answer
  unfoldable pub call_backend_tool : Gateway → ℕ → ℕ → BackendAnswer D → Gateway × ToolOutcome D
  unfolding in_budget
  call_backend_tool g asked answered backend =
      in_budget g asked answered backend (enforce_tool_call_limit g.budget input.tool_name)
