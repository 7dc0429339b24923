-- ===== src/Difc/Mode/Laws.antt =====
-- The modes and their names.
use gh_aw_mcpg.Common.{◌≡◌, refl, none, arith}
use gh_aw_mcpg.Common.Text.{Str, bytes, str_beq, str_eq, to_lower}
use gh_aw_mcpg.Difc.Mode.{
  EnforcementMode, strict, filter, propagate, mode_string, parse_enforcement_mode,
  default_enforcement_mode,
}

-- Parsing a mode's own name gives the mode back with no error.
pub parse_enforcement_mode-mode_string :
    (m : EnforcementMode) → parse_enforcement_mode (mode_string m) ≡ (m, none)
unfolding parse_enforcement_mode mode_string to_lower str_beq
parse_enforcement_mode-mode_string strict = refl
parse_enforcement_mode-mode_string filter = refl
parse_enforcement_mode-mode_string propagate = refl

-- Whatever the environment holds, the default mode's name is one that parses with no error.
pub parse_enforcement_mode-default :
    (env : Str) → (parse_enforcement_mode (default_enforcement_mode env)).1 ≡ none
unfolding default_enforcement_mode
parse_enforcement_mode-default env =
    ground (arith, parse_enforcement_mode-mode_string strict, strict_name)
  where
    strict_name : mode_string strict ≡ bytes "strict"
    strict_name = unfold mode_string in refl
