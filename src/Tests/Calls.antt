-- ===== src/Tests/Calls.antt =====
-- Runs of whole calls of a tool (internal/server/unified.go, internal/guard).
use gh_aw_mcpg.Common.{
  ℕ, ◌≡◌, ◌↔◌, ◌⊎◌, if◌then◌else◌, length, refl, true, false, not, ◌&&◌, none, some, arith, is_nil,
  [], ◌∷◌, has_key, keep,
}
use gh_aw_mcpg.Common.Text.{Str, bytes, str_beq, str_eq}
use gh_aw_mcpg.Common.Dict.{lookup}
use gh_aw_mcpg.Syncutil.MapCache.{map_get_or_create}
use gh_aw_mcpg.Difc.TagSet.{Tag, contains}
use gh_aw_mcpg.Difc.Label.{new_label}
use gh_aw_mcpg.Difc.Flow.{check_flow, check_flow_helper}
use gh_aw_mcpg.Difc.Mode.{read, write, strict, propagate}
use gh_aw_mcpg.Difc.Resource.{LabeledResource, CollectionLabeledData}
use gh_aw_mcpg.Difc.Evaluator.{Evaluator, is_allowed, evaluate, evaluate_read, evaluate_write}
use gh_aw_mcpg.Difc.Pipeline.{
  collection, items, is_strict, evaluate_coarse_access, should_call_label_response,
  filter_and_convert_labeled_data,
}
use gh_aw_mcpg.Difc.Pipeline.Laws.{denied_items, allowed_data}
use gh_aw_mcpg.Difc.Agent.{AgentLabels}
use gh_aw_mcpg.Difc.Registry.{get_or_create}
use gh_aw_mcpg.Guard.{Guard, WriteSinkGuard, write_sink_guard, sink_resource, labeled, response}
use gh_aw_mcpg.Guard.Sink.{Accepts, sink_resource-evaluate_write}
use gh_aw_mcpg.Guard.Pipeline.{PipelineInput, run_pipeline_pre_phases, run_pipeline_phase4}
use gh_aw_mcpg.Server.CircuitBreaker.{CircuitBreaker, circuit_closed, allow}
use gh_aw_mcpg.Server.ToolLimit.{enforce_tool_call_limit}
use gh_aw_mcpg.Server.Tool.{
  Gateway, answer, limit_reached, denied, policy_violation, single_item_filtered, filtered_result,
  backend_result, call_backend_tool,
}
use gh_aw_mcpg.Server.Tool.Laws.{
  agent_of, verdict, call_backend_tool-denied, call_backend_tool-unlabeled,
}
use gh_aw_mcpg.Server.Tool.Leak.{serve_calls, call_backend_tool_no_leak}
use gh_aw_mcpg.Server.Tool.Policy.{
  call_backend_tool-public_sink, call_backend_tool-collection, is_single,
}

abbrev private_tag : Tag
private_tag = bytes "private:github/secret"

abbrev agent_id : Str
agent_id = bytes "a"

abbrev breaker : CircuitBreaker
breaker = record {
  state = circuit_closed;
  consecutive_errors = 0;
  opened_at = 0;
  reset_at = 0;
  probe_in_flight = false;
  server_id = bytes "github";
  threshold = 3;
  cooldown = 60;
}

abbrev of_agent : AgentLabels → Gateway
of_agent a = record {
  budget = none;
  registry = record { agents = (agent_id, a) ∷ []; default_secrecy = []; default_integrity = [] };
  breaker = breaker;
}

-- a gateway whose agent has read private data, and one whose agent has not
abbrev tainted : Gateway
tainted = of_agent (record {
  agent_id = agent_id;
  secrecy = record { tags = private_tag ∷ [] };
  integrity = new_label;
})

abbrev untainted : Gateway
untainted = of_agent (record { agent_id = agent_id; secrecy = new_label; integrity = new_label })

abbrev public_sink : WriteSinkGuard
public_sink = record { accept_tags = bytes "*" ∷ []; sink_visibility = bytes "public" }

abbrev strict_evaluator : Evaluator
strict_evaluator = record { mode = strict }

abbrev guarded_by : Guard ℕ ℕ → PipelineInput ℕ ℕ
guarded_by g = record {
  agent_id = agent_id;
  tool_name = bytes "get_file";
  args = 0;
  guard = g;
  evaluator = strict_evaluator;
  enforcement_mode = strict;
}

sink_resource-evaluate_write_example :
    (is_allowed
        (evaluate_write strict_evaluator new_label new_label (sink_resource public_sink agent_id))
      ≡ true)
    ↔ Accepts public_sink new_label
sink_resource-evaluate_write_example =
    sink_resource-evaluate_write strict_evaluator public_sink agent_id new_label new_label

abbrev to_sink : PipelineInput ℕ ℕ
to_sink = guarded_by (write_sink_guard public_sink)

call_backend_tool-public_sink_example :
    let (g', outcome) = call_backend_tool to_sink tainted 1 2 (answer 7) in
    ((outcome ≡ limit_reached)
      ⊎ (outcome
          ≡ denied (verdict to_sink tainted (sink_resource public_sink (bytes "get_file")) write)))
    × (g'.breaker ≡ tainted.breaker)
unfolding get_or_create map_get_or_create lookup contains has_key str_beq
call_backend_tool-public_sink_example =
    call_backend_tool-public_sink to_sink tainted 1 2 (answer 7) public_sink private_tag refl refl
      refl

abbrev secret_file : LabeledResource
secret_file = record {
  description = bytes "file";
  secrecy = record { label = some (record { tags = private_tag ∷ [] }) };
  integrity = record { label = some new_label };
}

abbrev public_file : LabeledResource
public_file = record {
  description = bytes "page";
  secrecy = record { label = some new_label };
  integrity = record { label = some new_label };
}

abbrev two_files : CollectionLabeledData ℕ
two_files = record {
  items =
      record { content = 1; labels = some public_file }
      ∷ record { content = 2; labels = some secret_file }
      ∷ [];
}

-- a guard that labels each item of a response, and one that labels no response
abbrev labeling_guard : Guard ℕ ℕ
labeling_guard = record {
  name = bytes "labeling";
  label_resource = λ tool args. labeled secret_file read;
  label_response = λ tool result. response (some (collection two_files));
}

abbrev silent_guard : Guard ℕ ℕ
silent_guard = record {
  name = bytes "silent";
  label_resource = λ tool args. labeled secret_file read;
  label_response = λ tool result. response none;
}

abbrev writing_guard : Guard ℕ ℕ
writing_guard = record {
  name = bytes "writing";
  label_resource = λ tool args. labeled public_file write;
  label_response = λ tool result. response none;
}

call_backend_tool-denied_example :
    let (g', outcome) = call_backend_tool (guarded_by writing_guard) tainted 1 2 (answer 7) in
    ((outcome ≡ limit_reached)
      ⊎ (outcome ≡ denied (verdict (guarded_by writing_guard) tainted public_file write)))
    × (g'.breaker ≡ tainted.breaker)
unfolding get_or_create map_get_or_create lookup str_beq evaluate evaluate_write check_flow
    check_flow_helper has_key keep
call_backend_tool-denied_example =
    call_backend_tool-denied (guarded_by writing_guard) tainted 1 2 (answer 7) public_file write
      refl (ground arith) refl

call_backend_tool-collection_example :
    let a = agent_of (guarded_by labeling_guard) untainted in
    let refused = denied_items strict_evaluator a.secrecy a.integrity read two_files in
    let allowed = allowed_data strict_evaluator a.secrecy a.integrity read two_files in
    (call_backend_tool (guarded_by labeling_guard) untainted 1 2 (answer 7)).1 ≡ (
      if is_strict strict && not (is_nil refused)
      then policy_violation
      else if is_single (guarded_by labeling_guard).tool_name (length allowed) (length refused)
      then single_item_filtered
      else filtered_result (some (items allowed)))
unfolding enforce_tool_call_limit allow
call_backend_tool-collection_example =
    call_backend_tool-collection (guarded_by labeling_guard) untainted 1 2 7 secret_file two_files
      refl refl refl refl (refl, (refl, tt))

call_backend_tool-unlabeled_example :
    (call_backend_tool (guarded_by silent_guard) untainted 1 2 (answer 7)).1 ≡ backend_result 7
unfolding enforce_tool_call_limit allow get_or_create map_get_or_create lookup str_beq evaluate
    evaluate_read check_flow check_flow_helper has_key keep
call_backend_tool-unlabeled_example =
    call_backend_tool-unlabeled (guarded_by silent_guard) untainted 1 2 7 secret_file refl refl refl
      refl refl

abbrev propagating : PipelineInput ℕ ℕ
propagating = record (guarded_by silent_guard) {
  evaluator = record { mode = propagate };
  enforcement_mode = propagate;
}

call_backend_tool_no_leak_example :
    let first = (call_backend_tool propagating untainted 1 2 (answer 7)).0 in
    let before = serve_calls first ((to_sink, 3, 4, answer 8) ∷ []) in
    let later = guarded_by writing_guard in
    let (after, outcome) = call_backend_tool later before 5 6 (answer 9) in
    ((outcome ≡ limit_reached) ⊎ (outcome ≡ denied (verdict later before public_file write)))
    × (after.breaker ≡ before.breaker)
unfolding call_backend_tool enforce_tool_call_limit allow get_or_create map_get_or_create lookup
    str_beq evaluate evaluate_read check_flow check_flow_helper has_key keep contains
    run_pipeline_pre_phases evaluate_coarse_access run_pipeline_phase4 should_call_label_response
    filter_and_convert_labeled_data
call_backend_tool_no_leak_example =
    call_backend_tool_no_leak propagating untainted 1 2 7 secret_file none private_tag
      ((to_sink, 3, 4, answer 8) ∷ []) (guarded_by writing_guard) 5 6 (answer 9) public_file write
      refl refl refl refl refl refl refl (ground arith) refl refl
