-- ===== src/Server/Tool/Laws.antt =====
-- What a call of a tool comes to (internal/server/unified.go).
use gh_aw_mcpg.Common.{ℕ, ◌≡◌, ◌≢◌, ◌⊎◌, refl, true, false, none, arith}
use gh_aw_mcpg.Difc.Mode.{OperationType, read, write, read_write}
use gh_aw_mcpg.Difc.Resource.{LabeledResource}
use gh_aw_mcpg.Difc.Evaluator.{Evaluator, EvaluationResult, is_allowed, evaluate}
use gh_aw_mcpg.Difc.Pipeline.{
  coarse_bypass_for_read, evaluate_coarse_access, should_bypass_coarse_deny,
  should_call_label_response, filter_and_convert_labeled_data,
}
use gh_aw_mcpg.Difc.Agent.{AgentLabels}
use gh_aw_mcpg.Difc.Registry.{get_or_create}
use gh_aw_mcpg.Guard.{labeled, response}
use gh_aw_mcpg.Guard.Pipeline.{
  PipelineInput, access_denied, proceeds, check_access, run_pipeline_pre_phases,
  run_pipeline_phase4,
}
use gh_aw_mcpg.Server.CircuitBreaker.{allow}
use gh_aw_mcpg.Server.ToolLimit.{enforce_tool_call_limit}
use gh_aw_mcpg.Server.Tool.{
  Gateway, BackendAnswer, answer, limit_reached, denied, backend_result, call_backend_tool,
  in_budget, after_pre_phases, execute, handle_answer, filter_response, finish, final_result,
  single_filtered,
}

module _ {Args D : Type 0} (input : PipelineInput Args D) where
  -- the labels that phase 0 finds or makes
  abbrev pub agent_of : Gateway → AgentLabels
  agent_of g = (get_or_create g.registry.agents g.registry input.agent_id).1

  -- the evaluator's answer for the agent
  abbrev pub verdict : Gateway → LabeledResource → OperationType → EvaluationResult
  verdict g r op = evaluate input.evaluator (agent_of g).secrecy (agent_of g).integrity r op

  check_access-denied :
      (a : AgentLabels) (e : Evaluator) (r : LabeledResource) (op : OperationType)
      → op ≢ read
      → is_allowed (evaluate e a.secrecy a.integrity r op) ≡ false
      → check_access a e (labeled r op) ≡ access_denied (evaluate e a.secrecy a.integrity r op) r a
  unfolding evaluate_coarse_access should_bypass_coarse_deny
  check_access-denied a e r read other refused = absurd (other refl)
  check_access-denied a e r write other refused = ground arith
  check_access-denied a e r read_write other refused = ground arith

  -- A call whose operation is not a read and is denied to the agent ends in the denial, or in that
  -- of the session's budget, whatever the backend would answer, and leaves the circuit breaker as it
  -- is: the backend is not asked.
  pub call_backend_tool-denied :
      (g : Gateway) (asked answered : ℕ) (backend : BackendAnswer D) (r : LabeledResource)
      (op : OperationType)
      → input.guard.label_resource input.tool_name input.args ≡ labeled r op
      → op ≢ read
      → is_allowed (verdict g r op) ≡ false
      → let (g', outcome) = call_backend_tool input g asked answered backend in
        ((outcome ≡ limit_reached) ⊎ (outcome ≡ denied (verdict g r op))) × (g'.breaker ≡ g.breaker)
  unfolding call_backend_tool in_budget after_pre_phases run_pipeline_pre_phases
  call_backend_tool-denied g asked answered backend r op found other refused =
      ground (arith, check_access-denied (agent_of g) input.evaluator r op other refused)

  bypass :
      (a : AgentLabels) (e : Evaluator) (r : LabeledResource)
      → is_allowed (evaluate e a.secrecy a.integrity r read) ≡ false
      → check_access a e (labeled r read)
        ≡ proceeds (record {
          agent_labels = a;
          resource = r;
          operation = read;
          coarse_outcome = coarse_bypass_for_read;
          eval_result = evaluate e a.secrecy a.integrity r read;
        })
  unfolding evaluate_coarse_access should_bypass_coarse_deny
  bypass a e r refused = ground arith

  -- A read that is denied to the agent, in every mode, still returns the backend's whole answer if the
  -- guard gives no labels for it and neither the budget nor the circuit breaker stops the call.
  pub call_backend_tool-unlabeled :
      (g : Gateway) (asked answered : ℕ) (result : D) (r : LabeledResource)
      → (enforce_tool_call_limit g.budget input.tool_name).1 ≡ true
      → (allow g.breaker asked).1 ≡ none
      → input.guard.label_resource input.tool_name input.args ≡ labeled r read
      → is_allowed (verdict g r read) ≡ false
      → input.guard.label_response input.tool_name result ≡ response none
      → (call_backend_tool input g asked answered (answer result)).1 ≡ backend_result result
  unfolding call_backend_tool in_budget after_pre_phases execute handle_answer filter_response
      finish run_pipeline_pre_phases run_pipeline_phase4 filter_and_convert_labeled_data
      final_result single_filtered should_call_label_response
  call_backend_tool-unlabeled g asked answered result r within closed found refused bare =
      ground (arith, bypass (agent_of g) input.evaluator r refused)
