-- ===== src/Common/Split.antt =====
-- Strings cut at separators, and searched: parts of Go's `strings` package.
pub mod Laws
use Prim.Native.Nat.{ℕ, suc, ◌+◌}
use mathlib.Core.Path.{◌≡◌, refl}
use mathlib.Core.Bool.{Bool, true, false, not, ◌&&◌, ◌||◌}
use mathlib.Core.Option.{Option, none, some}
use mathlib.Core.List.{List, [], ◌∷◌, ◌++◌}
use native.Mathlib.Omega.{arith}
use gh_aw_mcpg.Common.Tests.{eqb, if◌then◌else◌}
use gh_aw_mcpg.Common.Lists.{is_nil}
use gh_aw_mcpg.Common.Text.{Str, has_byte, has_prefix}

abbrev pub on_first : ℕ → List Str → List Str
on_first c [] = (c ∷ []) ∷ []
on_first c (part ∷ parts) = (c ∷ part) ∷ parts

-- `strings.Split(s, sep)` for a separator of one byte
unfoldable pub split : ℕ → Str → List Str
split sep [] = [] ∷ []
split sep (c ∷ s) = let rest = split sep s in if eqb c sep then [] ∷ rest else on_first c rest

abbrev nonempty_part : Str → List Str → List Str
nonempty_part [] parts = parts
nonempty_part (c ∷ s) parts = (c ∷ s) ∷ parts

cut_where : (ℕ → Bool) → Str → List Str
cut_where p [] = [] ∷ []
cut_where p (c ∷ s) = let rest = cut_where p s in if p c then [] ∷ rest else on_first c rest

without_empty : List Str → List Str
without_empty [] = []
without_empty (part ∷ parts) = nonempty_part part (without_empty parts)

-- `strings.FieldsFunc(s, p)`: the parts between the bytes that pass, the empty ones left out
unfoldable pub fields_func : (ℕ → Bool) → Str → List Str
unfolding cut_where without_empty
fields_func p s = without_empty (cut_where p s)

-- `strings.Count(s, b)` for one byte
unfoldable pub count_byte : ℕ → Str → ℕ
count_byte b [] = 0
count_byte b (c ∷ s) = (if eqb c b then 1 else 0) + count_byte b s

-- `strings.HasSuffix(s, b)` for one byte
unfoldable pub ends_with : ℕ → Str → Bool
ends_with b [] = false
ends_with b (c ∷ s) = if is_nil s then eqb c b else ends_with b s

-- a string without its last byte
unfoldable pub init : Str → Str
init [] = []
init (c ∷ s) = if is_nil s then [] else c ∷ init s

-- `strings.TrimSuffix(s, b)` for one byte
unfoldable pub trim_suffix : ℕ → Str → Str
unfolding ends_with init
trim_suffix b s = if ends_with b s then init s else s

-- what stands before and after the first occurrence of the byte: `strings.Index` with both slices,
-- and `strings.Cut`
unfoldable pub cut_at : ℕ → Str → Option (Str × Str)
cut_at b [] = none
cut_at b (c ∷ s) =
    let rest = cut_at b s in
    if eqb c b
    then some ([], s)
    else elim rest [ none ↦ none | some (before, after) ↦ some (c ∷ before, after) ]

-- `strings.Contains(s, part)`, the part first
unfoldable pub has_substring : Str → Str → Bool
has_substring part [] = is_nil part
has_substring part (c ∷ s) = has_prefix part (c ∷ s) || has_substring part s
