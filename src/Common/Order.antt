-- ===== src/Common/Order.antt =====
-- The order of strings, byte by byte, and `sort.Strings` as the insertion of each item.
use Prim.Native.Nat.{suc}
use mathlib.Core.Path.{◌≡◌, refl}
use mathlib.Core.Logic.{inl, inr}
use mathlib.Core.Bool.{Bool, true, false, ◌&&◌, ◌||◌}
use mathlib.Core.List.{List, [], ◌∷◌}
use native.Mathlib.Omega.{arith}
use gh_aw_mcpg.Common.Tests.{eqb, ltb, Bool-cases, if◌then◌else◌}
use gh_aw_mcpg.Common.Lists.{All, length}
use gh_aw_mcpg.Common.Sets.{has_key, Distinct}
use gh_aw_mcpg.Common.Equality.{◌==◌}
use gh_aw_mcpg.Common.Text.{Str, str_eq, str_beq_iff}

-- `s <= t` on strings
unfoldable pub str_leb : Str → Str → Bool
str_leb [] t = true
str_leb (a ∷ s) [] = false
str_leb (a ∷ s) (b ∷ t) = ltb a b || eqb a b && str_leb s t

place : Str → List Str → List Str
place s [] = s ∷ []
place s (t ∷ ts) = let rest = place s ts in if str_leb s t then s ∷ t ∷ ts else t ∷ rest

unfoldable pub sort_strings : List Str → List Str
unfolding place
sort_strings [] = []
sort_strings (s ∷ ss) = place s (sort_strings ss)

-- Each string is at most every later one.
pub Sorted : List Str → Type 0
Sorted [] = Unit
Sorted (s ∷ ss) = All (λ t. str_leb s t ≡ true) ss × Sorted ss

str_leb_total : (s t : Str) → str_leb s t ≡ false → str_leb t s ≡ true
unfolding str_leb
str_leb_total [] t h = ground arith
str_leb_total (a ∷ s) [] h = refl
str_leb_total (a ∷ s) (b ∷ t) h = ground (arith, str_leb_total s t)

str_leb_trans : (s t u : Str) → str_leb s t ≡ true → str_leb t u ≡ true → str_leb s u ≡ true
unfolding str_leb
str_leb_trans [] t u h k = refl
str_leb_trans (a ∷ s) [] u h k = ground arith
str_leb_trans (a ∷ s) (b ∷ t) [] h k = ground arith
str_leb_trans (a ∷ s) (b ∷ t) (c ∷ u) h k = ground (arith, str_leb_trans s t u)

length-place : (s : Str) (ss : List Str) → length (place s ss) ≡ suc (length ss)
unfolding place
length-place s [] = refl
length-place s (t ∷ ts) = ground (arith, length-place s ts)

has_key-place : (s t : Str) (ss : List Str) → has_key (place s ss) t ≡ (s == t || has_key ss t)
unfolding place has_key
has_key-place s t [] = refl
has_key-place s t (u ∷ us) = ground (arith, has_key-place s t us)

-- Sorting keeps the strings of a list.
pub has_key-sort_strings : (ss : List Str) (t : Str) → has_key (sort_strings ss) t ≡ has_key ss t
unfolding sort_strings has_key
has_key-sort_strings [] t = refl
has_key-sort_strings (s ∷ ss) t =
    ground (arith, has_key-place s t (sort_strings ss), has_key-sort_strings ss t)

place-Distinct :
    (s : Str) (ss : List Str) → has_key ss s ≡ false → Distinct ss → Distinct (place s ss)
unfolding place has_key
place-Distinct s [] h d = (refl, tt)
place-Distinct s (u ∷ us) h d =
    ground (arith, has_key-place s u us, place-Distinct s us, str_beq_iff s u, str_beq_iff u s)

pub sort_strings-Distinct : (ss : List Str) → Distinct ss → Distinct (sort_strings ss)
unfolding sort_strings
sort_strings-Distinct [] d = tt
sort_strings-Distinct (s ∷ ss) d =
    place-Distinct s (sort_strings ss) (rw (has_key-sort_strings ss s) d.0)
      (sort_strings-Distinct ss d.1)

All-at_least :
    (s t : Str) (ss : List Str)
    → str_leb s t ≡ true
    → All (λ u. str_leb t u ≡ true) ss
    → All (λ u. str_leb s u ≡ true) ss
All-at_least s t [] h a = tt
All-at_least s t (u ∷ us) h a = (str_leb_trans s t u h a.0, All-at_least s t us h a.1)

module _ {ℓ} (P : Str → Type ℓ) where
  All-place : (s : Str) (ss : List Str) → P s → All P ss → All P (place s ss)
  unfolding place
  All-place s [] p a = (p, tt)
  All-place s (u ∷ us) p a = elim (Bool-cases (str_leb s u)) [
    | inl le ↦ rw le (p, a)
    | inr gt ↦ rw gt (a.0, All-place s us p a.1)
  ]

  pub All-sort_strings : (ss : List Str) → All P ss → All P (sort_strings ss)
  unfolding sort_strings
  All-sort_strings [] a = tt
  All-sort_strings (s ∷ ss) a = All-place s (sort_strings ss) a.0 (All-sort_strings ss a.1)

place-Sorted : (s : Str) (ss : List Str) → Sorted ss → Sorted (place s ss)
unfolding place Sorted
place-Sorted s [] o = (tt, tt)
place-Sorted s (u ∷ us) o = elim (Bool-cases (str_leb s u)) [
  | inl le ↦ rw le ((le, All-at_least s u us le o.0), o)
  | inr gt ↦
      rw gt
        (All-place (λ t. str_leb u t ≡ true) s us (str_leb_total s u gt) o.0, place-Sorted s us o.1)
]

-- The result is in order.
pub sort_strings-Sorted : (ss : List Str) → Sorted (sort_strings ss)
unfolding sort_strings Sorted
sort_strings-Sorted [] = tt
sort_strings-Sorted (s ∷ ss) = place-Sorted s (sort_strings ss) (sort_strings-Sorted ss)

place_first : (s : Str) (ss : List Str) → All (λ t. str_leb s t ≡ true) ss → place s ss ≡ s ∷ ss
unfolding place
place_first s [] a = refl
place_first s (t ∷ ts) a = rw a.0 refl

-- A list in order is left as it is.
pub sort_strings-Sorted_id : (ss : List Str) → Sorted ss → sort_strings ss ≡ ss
unfolding sort_strings Sorted
sort_strings-Sorted_id [] o = refl
sort_strings-Sorted_id (s ∷ ss) o = rw (sort_strings-Sorted_id ss o.1) (place_first s ss o.0)

pub length-sort_strings : (ss : List Str) → length (sort_strings ss) ≡ length ss
unfolding sort_strings
length-sort_strings [] = refl
length-sort_strings (s ∷ ss) =
    omega (arith, length-place s (sort_strings ss), length-sort_strings ss)
