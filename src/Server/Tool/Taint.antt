-- ===== src/Server/Tool/Taint.antt =====
-- Calls of tools do not leak: what one call taints binds the agent's later calls
-- (internal/server/unified.go, with internal/guard/pipeline.go and internal/difc/agent.go).
use gh_aw_mcpg.Common.{
  ℕ, ◌≡◌, ◌⊎◌, inl, inr, Bool, true, false, Option, none, some, arith, Bool-cases, Option-cases,
  ◌==◌,
}
use gh_aw_mcpg.Common.Text.{Str, str_beq_iff, str_eq}
use gh_aw_mcpg.Difc.TagSet.{Tag, contains}
use gh_aw_mcpg.Difc.Mode.{EnforcementMode}
use gh_aw_mcpg.Difc.Resource.{LabeledResource}
use gh_aw_mcpg.Difc.Pipeline.{
  LabeledData, FilterResult, filter_and_convert_labeled_data, should_accumulate_read_labels,
}
use gh_aw_mcpg.Difc.Agent.{AgentLabels, accumulate_from_read}
use gh_aw_mcpg.Difc.Agent.Laws.{contains-accumulate_secrecy}
use gh_aw_mcpg.Difc.Registry.{AgentRegistry, get_or_create, get, update_agent}
use gh_aw_mcpg.Difc.Registry.Laws.{get_or_create-get, get-update_agent}
use gh_aw_mcpg.Guard.{ResponseOutcome, response, response_error}
use gh_aw_mcpg.Guard.Pipeline.{
  PipelineInput, PipelinePreResult, PreOutcome, labeling_failed, access_denied, proceeds,
  read_labels, run_pipeline_pre_phases, run_pipeline_phase4, run_pipeline_phase6,
}
use gh_aw_mcpg.Server.CircuitBreaker.{CircuitBreaker, ErrCircuitOpen, allow, record_success}
use gh_aw_mcpg.Server.ToolLimit.{CallBudget, enforce_tool_call_limit}
use gh_aw_mcpg.Server.Tool.{
  Gateway, BackendAnswer, answer, transport_failure, rate_limit_answer, call_backend_tool,
  in_budget, after_pre_phases, execute, handle_answer, filter_response, finish,
}

-- The registry holds the agent with the tag in its secrecy.
abbrev pub Tainted : Str → Tag → AgentRegistry → Type 0
Tainted id t r = (a : AgentLabels) × (get r id ≡ some a) × (contains a.secrecy t ≡ true)

get_or_create-Tainted :
    (id other : Str) (t : Tag) (r : AgentRegistry)
    → Tainted id t r
    → Tainted id t (get_or_create r.agents r other).0
get_or_create-Tainted id other t r (a, there, bears) =
    (a, ground (arith, get_or_create-get r other id, str_beq_iff other id), bears)

no_agent :
    (r : AgentRegistry) (id : Str) (m : AgentLabels → AgentLabels)
    → get r id ≡ none
    → update_agent r id m ≡ r
unfolding update_agent get
no_agent r id m h = ground arith

-- reading through the pointer into the registry never takes a secrecy tag away
accumulated-Tainted :
    (id other : Str) (t : Tag) (r : AgentRegistry) (labels : LabeledResource)
    → Tainted id t r
    → Tainted id t (update_agent r other (λ a. accumulate_from_read a labels))
accumulated-Tainted id other t r labels (a, there, bears) =
    let method : AgentLabels → AgentLabels = λ b. accumulate_from_read b labels in
    elim (Option-cases (get r other)) [
      | inl absent ↦ rw (no_agent r other method absent) (a, there, bears)
      | inr (b, found) ↦ elim (Bool-cases (other == id)) [
        | inl same ↦ (
          accumulate_from_read a labels,
          ground (
            arith,
            str_beq_iff other id,
            get-update_agent r other id method b found,
            there,
            found,
          ),
          ground (arith, contains-accumulate_secrecy a labels t, bears),
        )
        | inr differ ↦
            (a, ground (arith, get-update_agent r other id method b found, there, differ), bears)
      ]
    ]

phase6-Tainted :
    {D : Type 0} (id other : Str) (t : Tag) (r : AgentRegistry) (pre : PipelinePreResult)
    (labels : Option (LabeledData D)) (mode : EnforcementMode)
    → Tainted id t r
    → Tainted id t (run_pipeline_phase6 r other pre labels mode)
unfolding run_pipeline_phase6
phase6-Tainted id other t r pre labels mode held =
    elim (Bool-cases (should_accumulate_read_labels pre.operation mode)) [
      | inl accumulates ↦
          rw accumulates (accumulated-Tainted id other t r (read_labels pre.resource labels) held)
      | inr skips ↦ rw skips held
    ]

module _ {Args D : Type 0} (input : PipelineInput Args D) where
  finish-registry :
      (g : Gateway) (pre : PipelinePreResult) (result : D) (labels : Option (LabeledData D))
      (f : FilterResult D)
      → let r = (finish input g pre result labels f).0.registry in
        (r ≡ g.registry)
        ⊎ (r ≡ run_pipeline_phase6 g.registry input.agent_id pre labels input.enforcement_mode)
  unfolding finish
  finish-registry g pre result labels f = ground arith

  finish-Tainted :
      (g : Gateway) (pre : PipelinePreResult) (result : D) (labels : Option (LabeledData D))
      (f : FilterResult D) (id : Str) (t : Tag)
      → Tainted id t g.registry
      → Tainted id t (finish input g pre result labels f).0.registry
  finish-Tainted g pre result labels f id t held = elim (finish-registry g pre result labels f) [
    | inl same ↦ rw same held
    | inr changed ↦
        rw changed
          (phase6-Tainted id input.agent_id t g.registry pre labels input.enforcement_mode held)
  ]

  filter_response-Tainted :
      (g : Gateway) (pre : PipelinePreResult) (result : D) (o : ResponseOutcome D) (id : Str)
      (t : Tag)
      → Tainted id t g.registry
      → Tainted id t (filter_response input g pre result o).0.registry
  unfolding filter_response
  filter_response-Tainted g pre result (response_error err) id t held = held
  filter_response-Tainted g pre result (response labels) id t held =
      elim (Option-cases (
        filter_and_convert_labeled_data input.evaluator pre.agent_labels.secrecy
          pre.agent_labels.integrity pre.operation labels input.enforcement_mode)) [
            | inl panicked ↦ rw (panicked, filter_response) held
            | inr (f, filtered) ↦
                rw (filtered, filter_response) (finish-Tainted g pre result labels f id t held)
          ]

  handle_answer-Tainted :
      (g : Gateway) (pre : PipelinePreResult) (now : ℕ) (backend : BackendAnswer D) (id : Str)
      (t : Tag)
      → Tainted id t g.registry
      → Tainted id t (handle_answer input g pre now backend).0.registry
  unfolding handle_answer
  handle_answer-Tainted g pre now (transport_failure err) id t held = held
  handle_answer-Tainted g pre now (rate_limit_answer reset_at err) id t held = held
  handle_answer-Tainted g pre now (answer result) id t held =
      filter_response-Tainted (record g { breaker = record_success g.breaker }) pre result
        (run_pipeline_phase4 input pre result) id t held

  execute-Tainted :
      (g : Gateway) (pre : PipelinePreResult) (answered : ℕ) (backend : BackendAnswer D)
      (p : CircuitBreaker × Option ErrCircuitOpen) (id : Str) (t : Tag)
      → Tainted id t g.registry
      → Tainted id t (execute input g pre answered backend p).0.registry
  unfolding execute
  execute-Tainted g pre answered backend (cb, some err) id t held = held
  execute-Tainted g pre answered backend (cb, none) id t held =
      handle_answer-Tainted (record g { breaker = cb }) pre answered backend id t held

  after_pre_phases-Tainted :
      (g : Gateway) (asked answered : ℕ) (backend : BackendAnswer D) (o : PreOutcome) (id : Str)
      (t : Tag)
      → Tainted id t g.registry
      → Tainted id t (after_pre_phases input g asked answered backend o).0.registry
  unfolding after_pre_phases
  after_pre_phases-Tainted g asked answered backend (labeling_failed err) id t held = held
  after_pre_phases-Tainted g asked answered backend (access_denied result r a) id t held = held
  after_pre_phases-Tainted g asked answered backend (proceeds pre) id t held =
      execute-Tainted g pre answered backend (allow g.breaker asked) id t held

  in_budget-Tainted :
      (g : Gateway) (asked answered : ℕ) (backend : BackendAnswer D) (p : Option CallBudget × Bool)
      (id : Str) (t : Tag)
      → Tainted id t g.registry
      → Tainted id t (in_budget input g asked answered backend p).0.registry
  unfolding in_budget run_pipeline_pre_phases
  in_budget-Tainted g asked answered backend (budget, false) id t held = held
  in_budget-Tainted g asked answered backend (budget, true) id t held =
      let (registry, outcome) = run_pipeline_pre_phases g.registry input in
      after_pre_phases-Tainted (record g { budget = budget; registry = registry }) asked answered
        backend outcome id t (get_or_create-Tainted id input.agent_id t g.registry held)

  -- a call by any agent keeps the tag of the tainted one
  pub call_backend_tool-Tainted :
      (g : Gateway) (asked answered : ℕ) (backend : BackendAnswer D) (id : Str) (t : Tag)
      → Tainted id t g.registry
      → Tainted id t (call_backend_tool input g asked answered backend).0.registry
  unfolding call_backend_tool
  call_backend_tool-Tainted g asked answered backend id t held =
      in_budget-Tainted g asked answered backend (enforce_tool_call_limit g.budget input.tool_name)
        id t held
