-- ===== src/Config/Rules.antt =====
-- The rules for single values: internal/config/validation_rules.go. An error is which of the messages it
-- has; `int` values are unbounded here, as they are only compared.
pub mod Mount
use gh_aw_mcpg.Common.{
  Bool, List, [], arith, eqb, false, is_nil, leb, not, refl, true, ℕ, ◌&&◌, ◌==◌, ◌||◌, ◌∷◌,
}
use gh_aw_mcpg.Common.Int.{negsuc, pos, ℤ}
use gh_aw_mcpg.Common.Result.{Result, check, err, ◌>>=◌, ◌>>◌}
use gh_aw_mcpg.Common.Split.{split}
use gh_aw_mcpg.Common.Text.{Str, bytes, has_prefix, str_eq}

pub data RuleError : Type 0 where
  bad_port not_positive below_minimum out_of_range : RuleError
  mount_parts no_source relative_source no_dest relative_dest bad_mode : RuleError
  missing_string empty_path relative_path : RuleError

abbrev at_most : ℤ → ℤ → Bool
at_most (pos m) (pos n) = leb m n
at_most (pos m) (negsuc n) = false
at_most (negsuc m) (pos n) = true
at_most (negsuc m) (negsuc n) = leb n m

unfoldable pub port_range : ℤ → Result RuleError (Unit {0})
port_range port = check (at_most (pos 1) port && at_most port (pos 65535)) RuleError.bad_port

-- `validatePositiveIntegerRule`, with `TimeoutPositive` and `PositiveInteger`
unfoldable pub validate_positive_integer_rule : ℤ → Result RuleError (Unit {0})
validate_positive_integer_rule n = check (at_most (pos 1) n) RuleError.not_positive

unfoldable pub timeout_minimum : ℤ → ℤ → Result RuleError (Unit {0})
timeout_minimum timeout min = check (at_most min timeout) RuleError.below_minimum

unfoldable pub timeout_range : ℤ → ℤ → ℤ → Result RuleError (Unit {0})
timeout_range timeout min max =
    check (at_most min timeout && at_most timeout max) RuleError.out_of_range

abbrev pub is_rooted : Str → Bool
is_rooted path = has_prefix (b'/' ∷ []) path

abbrev pub is_mode : Str → Bool
is_mode mode = mode == bytes "ro" || mode == bytes "rw"

-- the checks on the three parts, in order
unfoldable pub mount_parts_format : List Str → Result RuleError (Unit {0})
mount_parts_format (source ∷ dest ∷ mode ∷ []) = do
  check (not (is_nil source)) RuleError.no_source
  check (is_rooted source) RuleError.relative_source
  check (not (is_nil dest)) RuleError.no_dest
  check (is_rooted dest) RuleError.relative_dest
  check (is_mode mode) RuleError.bad_mode
mount_parts_format other = err RuleError.mount_parts

unfoldable pub mount_format : Str → Result RuleError (Unit {0})
mount_format mount = mount_parts_format (split b':' mount)

unfoldable pub required_string_field : Str → Result RuleError (Unit {0})
required_string_field s = check (not (is_nil s)) RuleError.missing_string

abbrev is_letter : ℕ → Bool
is_letter c = (leb b'A' c && leb c b'Z') || (leb b'a' c && leb c b'z')

-- a drive letter, a colon and a backslash
abbrev has_drive : Str → Bool
has_drive (a ∷ b ∷ c ∷ rest) = is_letter a && eqb b b':' && eqb c b'\\'
has_drive other = false

unfoldable pub absolute_path : Str → Result RuleError (Unit {0})
absolute_path path = do
  check (not (is_nil path)) RuleError.empty_path
  check (is_rooted path || has_drive path) RuleError.relative_path
