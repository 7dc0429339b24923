-- ===== src/Server/ToolLimit.antt =====
-- internal/server/unified.go, `enforceToolCallLimit`: the budget of calls of a tool in a session. The
-- state's lock is held throughout, so it is one step.
use gh_aw_mcpg.Common.{
  ℕ, ◌+◌, Bool, true, false, List, [], ◌∷◌, Option, none, some, is_nil, leb, eqb, if◌then◌else◌,
}
use gh_aw_mcpg.Common.Text.{Str, str_eq}
use gh_aw_mcpg.Common.Dict.{lookup, insert}
pub mod Laws

-- the part of `GuardSessionState` that the budget reads; a limit is at least 0
pub record CallBudget : Type 0 where
  pub tool_call_limits : List (Str × ℕ)
  pub tool_call_counts : List (Str × ℕ)

abbrev pub or_zero : Option ℕ → ℕ
or_zero none = 0
or_zero (some n) = n

abbrev pub calls_of : CallBudget → Str → ℕ
calls_of state tool = or_zero (lookup tool state.tool_call_counts)

-- the test against a limit that is set
pub count_call : CallBudget → Str → ℕ → CallBudget × Bool
count_call state tool limit =
    let current = calls_of state tool in
    if eqb limit 0 then (state, true) else if leb limit current then (state, false) else (
      record state { tool_call_counts = insert tool (current + 1) state.tool_call_counts },
      true,
    )

pub limited_call : CallBudget → Str → CallBudget × Bool
unfolding count_call
limited_call state tool = elim (lookup tool state.tool_call_limits) [
  | none ↦ (state, true)
  | some limit ↦ count_call state tool limit
]

-- `true` lets the call through; with no session state there is no budget
unfoldable pub enforce_tool_call_limit : Option CallBudget → Str → Option CallBudget × Bool
unfolding limited_call
enforce_tool_call_limit none tool = (none, true)
enforce_tool_call_limit (some state) tool =
    let (state', passed) = limited_call state tool in
    if is_nil state.tool_call_limits then (some state, true) else (some state', passed)
