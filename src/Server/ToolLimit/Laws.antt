-- ===== src/Server/ToolLimit/Laws.antt =====
-- A session's calls of a tool against its budget (internal/server/unified.go).
use gh_aw_mcpg.Common.{
  ℕ, ◌+◌, ◌-◌, ◌<◌, ◌≡◌, false, ◌&&◌, List, [], ◌∷◌, Option, some, arith, ltb, if◌then◌else◌,
  Bool-cases, inl, inr, ◌==◌,
}
use Prim.Native.Nat.{min}
use gh_aw_mcpg.Common.Text.{Str, str_beq_iff, str_eq}
use gh_aw_mcpg.Common.Dict.{lookup, lookup-insert, lookup-insert_self}
use gh_aw_mcpg.Server.ToolLimit.{
  CallBudget, calls_of, enforce_tool_call_limit, limited_call, count_call,
}

-- the calls of tools in a session, and how many calls of one tool got through
pub enforce_all : Option CallBudget → List Str → Str → Option CallBudget × ℕ
enforce_all state [] tool = (state, 0)
enforce_all state (called ∷ rest) tool =
    let (state', passed) = enforce_tool_call_limit state called in
    let (last, n) = enforce_all state' rest tool in
    (last, if called == tool && passed then n + 1 else n)

-- how often the tool is called
abbrev pub calls_in : List Str → Str → ℕ
calls_in [] tool = 0
calls_in (called ∷ rest) tool =
    if called == tool then calls_in rest tool + 1 else calls_in rest tool

limited_call-limits :
    (state : CallBudget) (called : Str)
    → (limited_call state called).0.tool_call_limits ≡ state.tool_call_limits
unfolding limited_call count_call
limited_call-limits state called = ground arith

limited_call_other :
    (state : CallBudget) (called tool : Str)
    → (called == tool) ≡ false
    → calls_of (limited_call state called).0 tool ≡ calls_of state tool
unfolding limited_call count_call
limited_call_other state called tool h =
    ground (arith, lookup-insert called tool (calls_of state called + 1) state.tool_call_counts)

limited_call_self :
    (state : CallBudget) (tool : Str) (limit : ℕ)
    → lookup tool state.tool_call_limits ≡ some limit
    → 0 < limit
    → let (state', passed) = limited_call state tool in
      (passed ≡ ltb (calls_of state tool) limit)
      × (calls_of state' tool ≡ (
          if ltb (calls_of state tool) limit then calls_of state tool + 1 else calls_of state tool))
unfolding limited_call count_call
limited_call_self state tool limit set positive =
    ground (arith, lookup-insert_self tool (calls_of state tool + 1) state.tool_call_counts)

-- the same for a name that is equal to the tool's
limited_call_same :
    (state : CallBudget) (called tool : Str) (limit : ℕ)
    → called ≡ tool
    → lookup tool state.tool_call_limits ≡ some limit
    → 0 < limit
    → let (state', passed) = limited_call state called in
      (passed ≡ ltb (calls_of state tool) limit)
      × (calls_of state' tool ≡ (
          if ltb (calls_of state tool) limit then calls_of state tool + 1 else calls_of state tool))
limited_call_same state called tool limit same set positive =
    rw same (limited_call_self state tool limit set positive)

enforce_tool_call_limit-limited_call :
    (state : CallBudget) (called : Str)
    → enforce_tool_call_limit (some state) called
      ≡ (some (limited_call state called).0, (limited_call state called).1)
unfolding enforce_tool_call_limit limited_call lookup
enforce_tool_call_limit-limited_call state called = ground arith

-- In a session where the tool has a positive limit, out of any calls of tools exactly as many calls
-- of this one get through as are made, up to what the limit leaves above the calls already counted.
pub enforce_all-passed :
    (called : List Str) (state : CallBudget) (tool : Str) (limit : ℕ)
    → lookup tool state.tool_call_limits ≡ some limit
    → 0 < limit
    → (enforce_all (some state) called tool).1
      ≡ min (calls_in called tool) (limit - calls_of state tool)
unfolding enforce_all
enforce_all-passed [] state tool limit set positive = omega arith
enforce_all-passed (c ∷ rest) state tool limit set positive =
    let state' = (limited_call state c).0 in
    let later =
      enforce_all-passed rest state' tool limit (rw (limited_call-limits state c) set) positive in
    elim (Bool-cases (c == tool)) [
      | inl same ↦
          let (passed, calls) =
            limited_call_same state c tool limit ((str_beq_iff c tool).0 same) set positive in
          rw (enforce_tool_call_limit-limited_call state c) (ground (arith, later, passed, calls))
      | inr other ↦
          rw (enforce_tool_call_limit-limited_call state c)
            (ground (arith, later, limited_call_other state c tool other))
    ]
