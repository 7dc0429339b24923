-- ===== src/Server/Tool/Leak.antt =====
-- No leak through calls of tools: a read that returned binds every later call of its agent
-- (internal/server/unified.go).
use gh_aw_mcpg.Common.{
  ℕ, ◌≡◌, ◌≢◌, ◌⊎◌, refl, Bool, true, false, List, [], ◌∷◌, Option, some, arith,
}
use gh_aw_mcpg.Common.Text.{Str, str_beq_iff, str_eq}
use gh_aw_mcpg.Difc.TagSet.{Tag, contains}
use gh_aw_mcpg.Difc.Label.{wildcard_tag}
use gh_aw_mcpg.Difc.Label.Laws.{has_tag}
use gh_aw_mcpg.Difc.Mode.{OperationType, read, write, read_write, propagate}
use gh_aw_mcpg.Difc.Resource.{LabeledResource}
use gh_aw_mcpg.Difc.Evaluator.{Evaluator, is_allowed, evaluate}
use gh_aw_mcpg.Difc.Pipeline.{
  LabeledData, should_accumulate_read_labels, should_call_label_response,
}
use gh_aw_mcpg.Difc.Agent.{AgentLabels, accumulate_from_read}
use gh_aw_mcpg.Difc.Agent.Laws.{contains-accumulate_secrecy}
use gh_aw_mcpg.Difc.Agent.Taint.{denied_secrecy}
use gh_aw_mcpg.Difc.Registry.{get_or_create, get, update_agent}
use gh_aw_mcpg.Difc.Registry.Laws.{get_or_create-get, get-update_agent}
use gh_aw_mcpg.Guard.{response, labeled}
use gh_aw_mcpg.Guard.Pipeline.{
  PipelineInput, read_labels, run_pipeline_pre_phases, run_pipeline_phase4, run_pipeline_phase6,
}
use gh_aw_mcpg.Server.Tool.{
  Gateway, BackendAnswer, ToolOutcome, answer, limit_reached, denied, backend_result,
  filtered_result, call_backend_tool, in_budget, after_pre_phases, execute, handle_answer,
  filter_response, finish,
}
use gh_aw_mcpg.Server.Tool.Laws.{agent_of, verdict, call_backend_tool-denied}
use gh_aw_mcpg.Server.Tool.Policy.{reads_proceed}
use gh_aw_mcpg.Server.Tool.Taint.{Tainted, call_backend_tool-Tainted}

-- whether the call gave data to the agent
abbrev pub gives_data : {D : Type 0} → ToolOutcome D → Bool
gives_data (backend_result result) = true
gives_data (filtered_result result) = true
gives_data _ = false

module _ {Args D : Type 0} (input : PipelineInput Args D) where
  read-registry :
      (g : Gateway) (asked answered : ℕ) (result : D) (r : LabeledResource)
      (labels : Option (LabeledData D))
      → input.enforcement_mode ≡ propagate
      → input.guard.label_resource input.tool_name input.args ≡ labeled r read
      → input.guard.label_response input.tool_name result ≡ response labels
      → gives_data (call_backend_tool input g asked answered (answer result)).1 ≡ true
      → (call_backend_tool input g asked answered (answer result)).0.registry
        ≡ update_agent
            (get_or_create g.registry.agents g.registry input.agent_id).0
            input.agent_id
            (λ a. accumulate_from_read a (read_labels r labels))
  unfolding call_backend_tool in_budget after_pre_phases execute handle_answer filter_response
      finish run_pipeline_pre_phases run_pipeline_phase4 run_pipeline_phase6
      should_call_label_response should_accumulate_read_labels
  read-registry g asked answered result r labels mode found given passed =
      ground (arith, reads_proceed input (agent_of input g) input.evaluator r)

  -- what phase 0 has made of the agent is in the registry
  known_agent :
      (g : Gateway)
      → get (get_or_create g.registry.agents g.registry input.agent_id).0 input.agent_id
        ≡ some (agent_of input g)
  known_agent g = ground (
    arith,
    get_or_create-get g.registry input.agent_id input.agent_id,
    str_beq_iff input.agent_id input.agent_id,
  )

  read-Tainted :
      (g : Gateway) (asked answered : ℕ) (result : D) (r : LabeledResource)
      (labels : Option (LabeledData D)) (t : Tag)
      → input.enforcement_mode ≡ propagate
      → input.guard.label_resource input.tool_name input.args ≡ labeled r read
      → input.guard.label_response input.tool_name result ≡ response labels
      → gives_data (call_backend_tool input g asked answered (answer result)).1 ≡ true
      → has_tag (read_labels r labels).secrecy.label t ≡ true
      → Tainted input.agent_id t
          (call_backend_tool input g asked answered (answer result)).0.registry
  read-Tainted g asked answered result r labels t mode found given passed bears =
      let a = agent_of input g in
      let method : AgentLabels → AgentLabels = λ b. accumulate_from_read b (read_labels r labels) in
      let r0 = (get_or_create g.registry.agents g.registry input.agent_id).0 in
      rw (read-registry g asked answered result r labels mode found given passed) (
        method a,
        ground (
          arith,
          get-update_agent r0 input.agent_id input.agent_id method a (known_agent g),
          str_beq_iff input.agent_id input.agent_id,
        ),
        ground (arith, contains-accumulate_secrecy a (read_labels r labels) t, bears),
      )

  -- the agent that a call finds is the one that the registry holds
  agent_of-Tainted :
      (g : Gateway) (t : Tag)
      → Tainted input.agent_id t g.registry
      → contains (agent_of input g).secrecy t ≡ true
  agent_of-Tainted g t (a, there, bears) =
      ground (arith, get_or_create-get g.registry input.agent_id input.agent_id, bears)

denied_write :
    (e : Evaluator) (a : AgentLabels) (w : LabeledResource) (op : OperationType) (t : Tag)
    → contains a.secrecy t ≡ true
    → has_tag w.secrecy.label t ≡ false
    → has_tag w.secrecy.label wildcard_tag ≡ false
    → op ≢ read
    → is_allowed (evaluate e a.secrecy a.integrity w op) ≡ false
unfolding evaluate
denied_write e a w read t has lacks closed other = absurd (other refl)
denied_write e a w write t has lacks closed other =
    denied_secrecy e a.secrecy a.integrity w t has lacks closed
denied_write e a w read_write t has lacks closed other =
    ground (arith, denied_secrecy e a.secrecy a.integrity w t has lacks closed)

-- a call of some agent, with its two instants and the backend's answer
abbrev pub ToolCall : Type 0 → Type 0 → Type 0
ToolCall Args D = PipelineInput Args D × ℕ × ℕ × BackendAnswer D

pub serve_calls : {Args D : Type 0} → Gateway → List (ToolCall Args D) → Gateway
serve_calls g [] = g
serve_calls g ((input, asked, answered, backend) ∷ rest) =
    serve_calls (call_backend_tool input g asked answered backend).0 rest

serve_calls-Tainted :
    {Args D : Type 0} (g : Gateway) (calls : List (ToolCall Args D)) (id : Str) (t : Tag)
    → Tainted id t g.registry
    → Tainted id t (serve_calls g calls).registry
unfolding serve_calls
serve_calls-Tainted g [] id t held = held
serve_calls-Tainted g ((input, asked, answered, backend) ∷ rest) id t held =
    serve_calls-Tainted (call_backend_tool input g asked answered backend).0 rest id t
      (call_backend_tool-Tainted input g asked answered backend id t held)

module _ {Args D : Type 0} (input : PipelineInput Args D) where
  -- In propagate mode, once a read has given an agent data whose labels (those of the response, or of
  -- the resource if the guard gives none) bear a secrecy tag, then after any calls by any agents, a
  -- call by the same agent, through whatever guard and in whatever mode, whose operation is not a read
  -- and whose resource bears neither that tag nor the wildcard tag, is denied, or stopped by the
  -- session's budget, and the backend is not asked.
  pub call_backend_tool_no_leak :
      (g : Gateway) (asked answered : ℕ) (result : D) (r : LabeledResource)
      (labels : Option (LabeledData D)) (t : Tag) (between : List (ToolCall Args D))
      (later : PipelineInput Args D) (asked' answered' : ℕ) (backend : BackendAnswer D)
      (w : LabeledResource) (op : OperationType)
      → input.enforcement_mode ≡ propagate
      → input.guard.label_resource input.tool_name input.args ≡ labeled r read
      → input.guard.label_response input.tool_name result ≡ response labels
      → gives_data (call_backend_tool input g asked answered (answer result)).1 ≡ true
      → has_tag (read_labels r labels).secrecy.label t ≡ true
      → later.agent_id ≡ input.agent_id
      → later.guard.label_resource later.tool_name later.args ≡ labeled w op
      → op ≢ read
      → has_tag w.secrecy.label t ≡ false
      → has_tag w.secrecy.label wildcard_tag ≡ false
      → let before =
          serve_calls (call_backend_tool input g asked answered (answer result)).0 between in
        let (after, outcome) = call_backend_tool later before asked' answered' backend in
        ((outcome ≡ limit_reached) ⊎ (outcome ≡ denied (verdict later before w op)))
        × (after.breaker ≡ before.breaker)
  call_backend_tool_no_leak g asked answered result r labels t between later asked' answered'
        backend w op mode found given passed bears same sink other lacks closed =
      let first = (call_backend_tool input g asked answered (answer result)).0 in
      let before = serve_calls first between in
      let held : Tainted later.agent_id t before.registry = rw same (
        serve_calls-Tainted first between input.agent_id t
          (read-Tainted input g asked answered result r labels t mode found given passed bears)) in
      call_backend_tool-denied later before asked' answered' backend w op sink other (
        denied_write later.evaluator (agent_of later before) w op t
          (agent_of-Tainted later before t held) lacks closed other)
