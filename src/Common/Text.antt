-- ===== src/Common/Text.antt =====
-- A Go `string` is a sequence of bytes. Case and white space are those of ASCII.
pub mod Laws
use Prim.Native.Char.{code}
use Prim.Native.String.{String}
use Prim.Native.Nat.{ℕ, ◌+◌, ◌-◌}
use mathlib.Core.Path.{◌≡◌}
use mathlib.Core.Logic.{◌↔◌}
use mathlib.Core.Bool.{Bool, true, false, ◌&&◌, ◌||◌}
use mathlib.Core.Option.{Option, none, some}
use mathlib.Core.List.{List, [], ◌∷◌, ◌++◌}
use native.Mathlib.Omega.{arith}
use gh_aw_mcpg.Common.Tests.{leb, eqb, if◌then◌else◌}
use gh_aw_mcpg.Common.Lists.{is_nil}
use gh_aw_mcpg.Common.Equality.{Comparable}

abbrev pub Str : Type 0
Str = List ℕ

-- the bytes of an ASCII literal
abbrev pub bytes : String → Str
bytes String.[] = []
bytes (String.◌∷◌ c s) = code c ∷ bytes s

unfoldable pub str_beq : Str → Str → Bool
str_beq [] [] = true
str_beq (a ∷ s) (b ∷ t) = eqb a b && str_beq s t
str_beq _ _ = false

pub str_beq_iff : (s t : Str) → (str_beq s t ≡ true) ↔ (s ≡ t)
unfolding str_beq
str_beq_iff [] [] = ground arith
str_beq_iff [] (b ∷ t) = ground arith
str_beq_iff (a ∷ s) [] = ground arith
str_beq_iff (a ∷ s) (b ∷ t) = ground (arith, str_beq_iff s t)

instance abbrev pub str_eq : Comparable Str
str_eq = record { same = str_beq; same_lem = str_beq_iff }

abbrev pub is_space : ℕ → Bool
is_space c = eqb c 32 || (leb 9 c && leb c 13)

pub trim_left : Str → Str
trim_left [] = []
trim_left (c ∷ s) = let rest = trim_left s in if is_space c then rest else c ∷ s

-- the string without the white space at its end
pub trim_right : Str → Str
trim_right [] = []
trim_right (c ∷ s) = let rest = trim_right s in if is_space c && is_nil rest then [] else c ∷ rest

-- `strings.TrimSpace`
unfoldable pub trim_space : Str → Str
unfolding trim_left trim_right
trim_space s = trim_right (trim_left s)

lower : ℕ → ℕ
lower c = if leb b'A' c && leb c b'Z' then c + 32 else c

-- `strings.ToLower`
unfoldable pub to_lower : Str → Str
unfolding lower
to_lower [] = []
to_lower (c ∷ s) = lower c ∷ to_lower s

upper : ℕ → ℕ
upper c = if leb b'a' c && leb c b'z' then c - 32 else c

-- `strings.ToUpper`
unfoldable pub to_upper : Str → Str
unfolding upper
to_upper [] = []
to_upper (c ∷ s) = upper c ∷ to_upper s

-- `strings.CutPrefix`: what follows the prefix
unfoldable pub strip_prefix : Str → Str → Option Str
strip_prefix [] s = some s
strip_prefix (p ∷ ps) [] = none
strip_prefix (p ∷ ps) (c ∷ s) = if eqb p c then strip_prefix ps s else none

-- `strings.HasPrefix(s, p)`, the prefix first
unfoldable pub has_prefix : Str → Str → Bool
unfolding strip_prefix
has_prefix p s = elim (strip_prefix p s) [ none ↦ false | some _ ↦ true ]

-- `strings.ContainsRune`
unfoldable pub has_byte : ℕ → Str → Bool
has_byte b [] = false
has_byte b (c ∷ s) = eqb c b || has_byte b s

-- some byte passes
unfoldable pub any_byte : (ℕ → Bool) → Str → Bool
any_byte p [] = false
any_byte p (c ∷ s) = p c || any_byte p s

-- `strings.Join(parts, sep)`
unfoldable pub join : Str → List Str → Str
join sep [] = []
join sep (s ∷ []) = s
join sep (s ∷ t ∷ rest) = s ++ (sep ++ join sep (t ∷ rest))
