-- ===== src/Common/Split/Laws.antt =====
-- Splitting and joining undo each other; a string and its last byte.
use gh_aw_mcpg.Common.{
  All, Bool-cases, List, [], ap, arith, eqb, eqb_iff, false, inl, inr, refl, true, ℕ, ◌++◌, ◌+◌,
  ◌∷◌, ◌≡◌, ◌≢◌,
}
use gh_aw_mcpg.Common.Split.{count_byte, ends_with, init, on_first, split}
use gh_aw_mcpg.Common.Text.{Str, join, str_eq}
use mathlib.Core.List.{cons-ne-nil}

-- No byte of the string is `b`.
abbrev pub Lacks : ℕ → Str → Type 0
Lacks b s = count_byte b s ≡ 0

join-on_first :
    (sep c : ℕ) (parts : List Str)
    → parts ≢ []
    → join (sep ∷ []) (on_first c parts) ≡ c ∷ join (sep ∷ []) parts
unfolding join
join-on_first sep c [] h = absurd (h refl)
join-on_first sep c (part ∷ []) h = refl
join-on_first sep c (part ∷ next ∷ parts) h = refl

join-nil :
    (sep : ℕ) (parts : List Str)
    → parts ≢ []
    → join (sep ∷ []) ([] ∷ parts) ≡ sep ∷ join (sep ∷ []) parts
unfolding join
join-nil sep [] h = absurd (h refl)
join-nil sep (part ∷ parts) h = refl

on_first-ne-nil : (c : ℕ) (parts : List Str) → on_first c parts ≢ []
on_first-ne-nil c [] = cons-ne-nil _ _
on_first-ne-nil c (part ∷ parts) = cons-ne-nil _ _

split-ne-nil : (sep : ℕ) (s : Str) → split sep s ≢ []
unfolding split
split-ne-nil sep [] = cons-ne-nil _ _
split-ne-nil sep (c ∷ s) = elim (Bool-cases (eqb c sep)) [
  | inl e ↦ rw e (cons-ne-nil _ _)
  | inr e ↦ rw e (on_first-ne-nil c (split sep s))
]

-- Joining the parts of a split gives the string back.
pub join-split : (sep : ℕ) (s : Str) → join (sep ∷ []) (split sep s) ≡ s
unfolding split join
join-split sep [] = refl
join-split sep (c ∷ s) = elim (Bool-cases (eqb c sep)) [
  | inl e ↦ rw e (
      grind
        (arith, join-nil sep (split sep s) (split-ne-nil sep s), join-split sep s, eqb_iff c sep))
  | inr e ↦
      rw e (grind (arith, join-on_first sep c (split sep s) (split-ne-nil sep s), join-split sep s))
]

pub split-Lacks : (sep : ℕ) (s : Str) → Lacks sep s → split sep s ≡ s ∷ []
unfolding split count_byte
split-Lacks sep [] h = refl
split-Lacks sep (c ∷ s) h = ground (arith, split-Lacks sep s)

-- The first part ends at the first separator.
pub split-append : (sep : ℕ) (s t : Str) → Lacks sep s → split sep (s ++ sep ∷ t) ≡ s ∷ split sep t
unfolding split count_byte
split-append sep [] t h = ground arith
split-append sep (c ∷ s) t h = ground (arith, split-append sep s t)

-- the byte at the end, written out
pub ends_with-init : (b : ℕ) (s : Str) → ends_with b s ≡ true → init s ++ b ∷ [] ≡ s
unfolding ends_with init
ends_with-init b [] h = ground arith
ends_with-init b (c ∷ []) h = ground arith
ends_with-init b (c ∷ d ∷ s) h = ap (◌∷◌ c) (ends_with-init b (d ∷ s) h)

pub ends_with-append : (b : ℕ) (s : Str) → ends_with b (s ++ b ∷ []) ≡ true
unfolding ends_with
ends_with-append b [] = ground arith
ends_with-append b (c ∷ []) = ground arith
ends_with-append b (c ∷ d ∷ s) = ends_with-append b (d ∷ s)

pub init-append : (b : ℕ) (s : Str) → init (s ++ b ∷ []) ≡ s
unfolding init
init-append b [] = refl
init-append b (c ∷ []) = refl
init-append b (c ∷ d ∷ s) = ap (◌∷◌ c) (init-append b (d ∷ s))

pub ends_with-Lacks : (b : ℕ) (s : Str) → Lacks b s → ends_with b s ≡ false
unfolding ends_with count_byte
ends_with-Lacks b [] h = refl
ends_with-Lacks b (c ∷ []) h = ground arith
ends_with-Lacks b (c ∷ d ∷ s) h = ends_with-Lacks b (d ∷ s) (ground arith)

pub count_byte-append :
    (b : ℕ) (s t : Str) → count_byte b (s ++ t) ≡ count_byte b s + count_byte b t
unfolding count_byte
count_byte-append b [] t = omega arith
count_byte-append b (c ∷ s) t = omega (arith, count_byte-append b s t)

on_first-Lacks :
    (sep c : ℕ) (parts : List Str)
    → eqb c sep ≡ false
    → All (Lacks sep) parts
    → All (Lacks sep) (on_first c parts)
unfolding count_byte
on_first-Lacks sep c [] e h = (ground arith, tt)
on_first-Lacks sep c (part ∷ parts) e (h, rest) = (ground arith, rest)

-- No part of a split has the separator.
pub All-split : (sep : ℕ) (s : Str) → All (Lacks sep) (split sep s)
unfolding split count_byte
All-split sep [] = (refl, tt)
All-split sep (c ∷ s) = elim (Bool-cases (eqb c sep)) [
  | inl e ↦ rw e (refl, All-split sep s)
  | inr e ↦ rw e (on_first-Lacks sep c (split sep s) e (All-split sep s))
]
