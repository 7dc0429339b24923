-- ===== src/Common/Decimal.antt =====
-- `strconv.Atoi`, and `ParseInt` in base 10 with 64 bits.
use gh_aw_mcpg.Common.{
  Bool, Option, [], eqb, false, if◌then◌else◌, leb, ltb, none, some, true, ℕ, ◌&&◌, ◌*◌, ◌+◌, ◌-◌,
  ◌^◌, ◌∷◌,
}
use gh_aw_mcpg.Common.Int.{negsuc, pos, ℤ}
use gh_aw_mcpg.Common.Text.{Str, str_eq}

abbrev digit : ℕ → Option ℕ
digit c = if leb b'0' c && leb c b'9' then some (c - b'0') else none

-- the value of the digits that follow a prefix with the value given
unfoldable pub digits_from : ℕ → Str → Option ℕ
digits_from n [] = some n
digits_from n (c ∷ s) = elim (digit c) [ none ↦ none | some d ↦ digits_from (10 * n + d) s ]

abbrev digits : Str → Option ℕ
digits [] = none
digits (c ∷ s) = digits_from 0 (c ∷ s)

abbrev negative : ℕ → ℤ
negative n = if leb n 0 then pos 0 else negsuc (n - 1)

-- the number, if it has 64 bits
abbrev in_range : Bool → ℕ → Option ℤ
in_range below_zero n =
    if below_zero
    then (if leb n (2 ^ 63) then some (negative n) else none)
    else (if ltb n (2 ^ 63) then some (pos n) else none)

abbrev signed : Bool → Str → Option ℤ
signed below_zero s = elim (digits s) [ none ↦ none | some n ↦ in_range below_zero n ]

unfoldable pub atoi : Str → Option ℤ
atoi [] = none
atoi (c ∷ s) =
    if eqb c b'-'
    then signed true s
    else if eqb c b'+'
    then signed false s
    else signed false (c ∷ s)
