-- ===== src/Server/Tool/Policy.antt =====
-- A call of a tool against the policy, from end to end (internal/server/unified.go, with
-- internal/guard/write_sink.go).
use gh_aw_mcpg.Common.{
  ℕ, ◌≡◌, ◌⊎◌, inl, inr, refl, true, false, not, ◌&&◌, none, some, arith, if◌then◌else◌, Bool-cases,
  is_nil, Bool, eqb, length, ◌||◌,
}
use gh_aw_mcpg.Common.Text.{Str, bytes, has_prefix, str_beq_iff, str_eq}
use gh_aw_mcpg.Difc.TagSet.{Tag, contains}
use gh_aw_mcpg.Difc.Mode.{read, write}
use gh_aw_mcpg.Difc.Resource.{LabeledResource, CollectionLabeledData}
use gh_aw_mcpg.Difc.Evaluator.{Evaluator, is_allowed, evaluate, evaluate_write}
use gh_aw_mcpg.Difc.Evaluator.Filter.{IsLabeled}
use gh_aw_mcpg.Difc.Pipeline.{
  coarse_allowed, coarse_bypass_for_read, evaluate_coarse_access, should_bypass_coarse_deny,
  should_call_label_response, collection, items, is_strict,
}
use gh_aw_mcpg.Difc.Pipeline.Laws.{denied_items, allowed_data, filter_and_convert-counts}
use gh_aw_mcpg.Difc.Agent.{AgentLabels}
use gh_aw_mcpg.Guard.{WriteSinkGuard, write_sink_guard, sink_resource, labeled, response}
use gh_aw_mcpg.Guard.Sink.{sink_resource-evaluate_write}
use gh_aw_mcpg.Guard.Pipeline.{
  PipelineInput, proceeds, check_access, run_pipeline_pre_phases, run_pipeline_phase4,
}
use gh_aw_mcpg.Server.CircuitBreaker.{allow}
use gh_aw_mcpg.Server.ToolLimit.{enforce_tool_call_limit}
use gh_aw_mcpg.Server.Tool.{
  Gateway, BackendAnswer, answer, limit_reached, denied, filtered_result, policy_violation,
  single_item_filtered, call_backend_tool, in_budget, after_pre_phases, execute, handle_answer,
  filter_response, finish, final_result, single_filtered, is_singular_read_tool,
}
use gh_aw_mcpg.Server.Tool.Laws.{agent_of, verdict, call_backend_tool-denied}

public_refuses :
    (e : Evaluator) (sink : WriteSinkGuard) (tool : Str) (a : AgentLabels) (t : Tag)
    → sink.sink_visibility ≡ bytes "public"
    → contains a.secrecy t ≡ true
    → is_allowed (evaluate e a.secrecy a.integrity (sink_resource sink tool) write) ≡ false
unfolding evaluate
public_refuses e sink tool a t public tainted =
    elim (Bool-cases
      (is_allowed (evaluate_write e a.secrecy a.integrity (sink_resource sink tool)))) [
        | inr refused ↦ refused
        | inl passed ↦
            elim ((sink_resource-evaluate_write e sink tool a.secrecy a.integrity).0 passed) [
              | inl (_, clean) ↦ ground (arith, clean t)
              | inr (hidden, _) ↦ ground (arith, str_beq_iff sink.sink_visibility (bytes "public"))
            ]
      ]

-- the tool reads one item, of which the policy allows none and denies one
abbrev pub is_single : Str → ℕ → ℕ → Bool
is_single tool allowed refused =
    not (has_prefix (bytes "list_") tool || has_prefix (bytes "search_") tool)
    && (eqb allowed 0 && eqb refused 1)

module _ {Args D : Type 0} (input : PipelineInput Args D) where
  -- A call through a write-sink whose visibility is public, by an agent that bears any secrecy tag, is
  -- denied, or stopped by the session's budget, whatever the sink accepts, and the backend is not
  -- asked.
  pub call_backend_tool-public_sink :
      (g : Gateway) (asked answered : ℕ) (backend : BackendAnswer D) (sink : WriteSinkGuard)
      (t : Tag)
      → input.guard ≡ write_sink_guard sink
      → sink.sink_visibility ≡ bytes "public"
      → contains (agent_of input g).secrecy t ≡ true
      → let (g', outcome) = call_backend_tool input g asked answered backend in
        ((outcome ≡ limit_reached)
          ⊎ (outcome ≡ denied (verdict input g (sink_resource sink input.tool_name) write)))
        × (g'.breaker ≡ g.breaker)
  unfolding write_sink_guard
  call_backend_tool-public_sink g asked answered backend sink t guarded public tainted =
      call_backend_tool-denied input g asked answered backend (sink_resource sink input.tool_name)
        write (rw guarded refl) (ground arith)
        (public_refuses input.evaluator sink input.tool_name (agent_of input g) t public tainted)

  pub reads_proceed :
      (a : AgentLabels) (e : Evaluator) (r : LabeledResource)
      → check_access a e (labeled r read)
        ≡ proceeds (record {
          agent_labels = a;
          resource = r;
          operation = read;
          coarse_outcome =
              if is_allowed (evaluate e a.secrecy a.integrity r read)
              then coarse_allowed
              else coarse_bypass_for_read;
          eval_result = evaluate e a.secrecy a.integrity r read;
        })
  unfolding evaluate_coarse_access should_bypass_coarse_deny
  reads_proceed a e r = ground arith

  -- A read whose response the guard labels as a collection, each item with labels, that neither the
  -- budget nor the circuit breaker stops, is a policy violation exactly if the mode is strict and the
  -- policy denies some item; otherwise it is the notice on a single filtered item exactly if the tool's
  -- name begins neither with list_ nor with search_, the policy denies one item and it allows none; and
  -- otherwise it is exactly the allowed items' data, in order.
  pub call_backend_tool-collection :
      (g : Gateway) (asked answered : ℕ) (result : D) (r : LabeledResource)
      (c : CollectionLabeledData D)
      → (enforce_tool_call_limit g.budget input.tool_name).1 ≡ true
      → (allow g.breaker asked).1 ≡ none
      → input.guard.label_resource input.tool_name input.args ≡ labeled r read
      → input.guard.label_response input.tool_name result ≡ response (some (collection c))
      → IsLabeled c.items
      → let a = agent_of input g in
        let refused = denied_items input.evaluator a.secrecy a.integrity read c in
        let allowed = allowed_data input.evaluator a.secrecy a.integrity read c in
        (call_backend_tool input g asked answered (answer result)).1 ≡ (
          if is_strict input.enforcement_mode && not (is_nil refused)
          then policy_violation
          else if is_single input.tool_name (length allowed) (length refused)
          then single_item_filtered
          else filtered_result (some (items allowed)))
  unfolding call_backend_tool in_budget after_pre_phases execute handle_answer filter_response
      finish run_pipeline_pre_phases run_pipeline_phase4 final_result single_filtered
      should_call_label_response is_singular_read_tool
  call_backend_tool-collection g asked answered result r c within closed found labels all =
      let a = agent_of input g in
      let (f, filtered, blocked, final, (parts, shape, kept, dropped)) =
        filter_and_convert-counts input.evaluator a.secrecy a.integrity read input.enforcement_mode
          c all in
      ground
        (arith, reads_proceed a input.evaluator r, filtered, blocked, final, shape, kept, dropped)
