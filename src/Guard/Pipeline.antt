-- ===== src/Guard/Pipeline.antt =====
-- internal/guard/pipeline.go: the phases of a guarded call that the proxy and the server share.
use gh_aw_mcpg.Common.{◌++◌, Option, none, some, if◌then◌else◌}
use gh_aw_mcpg.Common.Text.{Str, bytes}
use gh_aw_mcpg.Difc.Mode.{OperationType, EnforcementMode}
use gh_aw_mcpg.Difc.Resource.{LabeledResource}
use gh_aw_mcpg.Difc.Evaluator.{Evaluator, EvaluationResult}
use gh_aw_mcpg.Difc.Pipeline.{
  CoarseCheckOutcome, coarse_allowed, coarse_bypass_for_read, coarse_denied, evaluate_coarse_access,
  should_call_label_response, should_accumulate_read_labels, LabeledData, overall_labels,
}
use gh_aw_mcpg.Difc.Agent.{AgentLabels, accumulate_from_read}
use gh_aw_mcpg.Difc.Registry.{AgentRegistry, get_or_create, update_agent}
use gh_aw_mcpg.Guard.{
  Guard, ResourceOutcome, labeled, resource_error, ResponseOutcome, response, response_error,
}

-- The registry, which the phases change, is apart.
pub record PipelineInput (Args D : Type 0) : Type 0 where
  pub agent_id : Str
  pub tool_name : Str
  pub args : Args
  pub guard : Guard Args D
  pub evaluator : Evaluator
  pub enforcement_mode : EnforcementMode

-- `agent_labels` is what the pointer into the registry shows.
pub record PipelinePreResult : Type 0 where
  pub agent_labels : AgentLabels
  pub resource : LabeledResource
  pub operation : OperationType
  pub coarse_outcome : CoarseCheckOutcome
  pub eval_result : EvaluationResult

pub data PreOutcome : Type 0 where
  labeling_failed : Str → PreOutcome
  access_denied : EvaluationResult → LabeledResource → AgentLabels → PreOutcome
  proceeds : PipelinePreResult → PreOutcome

-- the switch on the outcome of the coarse check
abbrev pub pre_outcome :
    AgentLabels
    → LabeledResource
    → OperationType
    → CoarseCheckOutcome × EvaluationResult
    → PreOutcome
pre_outcome a r op (coarse_denied, result) = access_denied result r a
pre_outcome a r op (coarse_allowed, result) = proceeds (record {
  agent_labels = a;
  resource = r;
  operation = op;
  coarse_outcome = coarse_allowed;
  eval_result = result;
})
pre_outcome a r op (coarse_bypass_for_read, result) = proceeds (record {
  agent_labels = a;
  resource = r;
  operation = op;
  coarse_outcome = coarse_bypass_for_read;
  eval_result = result;
})

abbrev pub check_access : AgentLabels → Evaluator → ResourceOutcome → PreOutcome
check_access a e (resource_error err) = labeling_failed (bytes "resource labeling failed: " ++ err)
check_access a e (labeled r op) =
    pre_outcome a r op (evaluate_coarse_access e a.secrecy a.integrity r op)

abbrev wrap_error : {D : Type 0} → ResponseOutcome D → ResponseOutcome D
wrap_error (response labels) = response labels
wrap_error (response_error err) = response_error (bytes "response labeling failed: " ++ err)

-- the labels of phase 6: those of the response, or of the resource if there are none
abbrev pub read_labels : {D : Type 0} → LabeledResource → Option (LabeledData D) → LabeledResource
read_labels resource none = resource
read_labels resource (some labels) = overall_labels labels

module _ {Args D : Type 0} where
  unfoldable pub run_pipeline_pre_phases :
      AgentRegistry → PipelineInput Args D → AgentRegistry × PreOutcome
  run_pipeline_pre_phases registry input =
      let (registry', a) = get_or_create registry.agents registry input.agent_id in
      (
        registry',
        check_access a input.evaluator (input.guard.label_resource input.tool_name input.args),
      )

  unfoldable pub run_pipeline_phase4 :
      PipelineInput Args D → PipelinePreResult → D → ResponseOutcome D
  run_pipeline_phase4 input pre result =
      if should_call_label_response pre.operation input.enforcement_mode
      then wrap_error (input.guard.label_response input.tool_name result)
      else response none

unfoldable pub run_pipeline_phase6 :
    {D : Type 0}
    → AgentRegistry
    → Str
    → PipelinePreResult
    → Option (LabeledData D)
    → EnforcementMode
    → AgentRegistry
run_pipeline_phase6 registry agent_id pre labels mode =
    if should_accumulate_read_labels pre.operation mode
    then update_agent registry agent_id
        (λ a. accumulate_from_read a (read_labels pre.resource labels))
    else registry
