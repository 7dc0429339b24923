-- ===== src/Difc/Mode.antt =====
-- internal/difc/evaluator.go, the enforcement modes and the kinds of operation and decision.
use gh_aw_mcpg.Common.{
  Bool, true, false, not, ◌||◌, List, [], ◌∷◌, ◌++◌, Option, none, some, is_nil, ◌==◌,
  if◌then◌else◌,
}
use gh_aw_mcpg.Common.Text.{Str, bytes, str_beq, str_eq, to_lower}
pub mod Laws

pub data OperationType : Type 0 where
  read write read_write : OperationType

pub data EnforcementMode : Type 0 where
  strict filter propagate : EnforcementMode

pub data AccessDecision : Type 0 where
  allow deny allow_with_propagate : AccessDecision

-- `EnforcementMode.String`
pub mode_string : EnforcementMode → Str
mode_string strict = bytes "strict"
mode_string filter = bytes "filter"
mode_string propagate = bytes "propagate"

-- The mode, and the error's text if there is one.
unfoldable pub parse_enforcement_mode : Str → EnforcementMode × Option Str
parse_enforcement_mode s =
    let lowered = to_lower s in
    let unknown =
      bytes "unknown enforcement mode: "
      ++ (s ++ bytes " (valid modes: strict, filter, propagate)") in
    if lowered == bytes "strict" || is_nil lowered
    then (strict, none)
    else if lowered == bytes "filter"
    then (filter, none)
    else if lowered == bytes "propagate"
    then (propagate, none)
    else (strict, some unknown)

-- `DefaultEnforcementMode`, from the value of MCP_GATEWAY_GUARDS_MODE (empty if unset)
pub default_enforcement_mode : Str → Str
default_enforcement_mode env_mode =
    let mode = to_lower env_mode in
    if is_nil env_mode
    then bytes "strict"
    else elim (parse_enforcement_mode mode).1 [ none ↦ mode | some _ ↦ bytes "strict" ]

-- the choice of the mode in `NewComponents`, with the parse error if there is one
unfoldable pub components_mode : Str → EnforcementMode → EnforcementMode × Option Str
components_mode mode_str default_mode =
    if is_nil mode_str then (default_mode, none) else elim (parse_enforcement_mode mode_str).1 [
      | none ↦ ((parse_enforcement_mode mode_str).0, none)
      | some err ↦ (default_mode, some err)
    ]
