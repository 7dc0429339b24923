-- ===== src/Common/Sets.antt =====
-- `map[K]struct{}` as the list of its keys, in the order of an iteration over it.
use mathlib.Core.Path.{◌≡◌, refl}
use mathlib.Core.Logic.{◌↔◌}
use mathlib.Core.Bool.{Bool, true, false, not, ◌&&◌, ◌||◌}
use mathlib.Core.List.{List, [], ◌∷◌, ◌++◌}
use native.Mathlib.Omega.{arith}
use gh_aw_mcpg.Common.Tests.{if◌then◌else◌}
use gh_aw_mcpg.Common.Lists.{keep, All}
use gh_aw_mcpg.Common.Equality.{Comparable, ◌==◌}

module _ {ℓ} {A : Type ℓ} ⦃e : Comparable A⦄ where
  unfoldable pub has_key : List A → A → Bool
  has_key [] a = false
  has_key (x ∷ xs) a = x == a || has_key xs a

  -- `s[a] = struct{}{}`
  unfoldable pub insert_key : A → List A → List A
  insert_key a [] = a ∷ []
  insert_key a (x ∷ xs) = if x == a then x ∷ xs else x ∷ insert_key a xs

  -- `delete(s, a)`
  pub delete_key : A → List A → List A
  delete_key a [] = []
  delete_key a (x ∷ xs) = if x == a then delete_key a xs else x ∷ delete_key a xs

  -- No key is there twice.
  abbrev pub Distinct : List A → Type 0
  Distinct [] = Unit
  Distinct (x ∷ xs) = (has_key xs x ≡ false) × Distinct xs

  pub has_key-insert_key :
      (a b : A) (xs : List A) → has_key (insert_key a xs) b ≡ (a == b || has_key xs b)
  unfolding has_key insert_key
  has_key-insert_key a b [] = refl
  has_key-insert_key a b (x ∷ xs) =
      ground (arith, e.same_lem x a, e.same_lem x b, e.same_lem a b, has_key-insert_key a b xs)

  pub has_key-delete_key :
      (a b : A) (xs : List A) → has_key (delete_key a xs) b ≡ (not (a == b) && has_key xs b)
  unfolding has_key delete_key
  has_key-delete_key a b [] = ground arith
  has_key-delete_key a b (x ∷ xs) =
      ground (arith, e.same_lem x a, e.same_lem x b, e.same_lem a b, has_key-delete_key a b xs)

  pub has_key-keep :
      (p : A → Bool) (b : A) (xs : List A) → has_key (keep p xs) b ≡ (p b && has_key xs b)
  unfolding has_key keep
  has_key-keep p b [] = ground arith
  has_key-keep p b (x ∷ xs) = ground (arith, e.same_lem x b, has_key-keep p b xs)

  pub has_key-append :
      (xs ys : List A) (b : A) → has_key (xs ++ ys) b ≡ (has_key xs b || has_key ys b)
  unfolding has_key
  has_key-append [] ys b = refl
  has_key-append (x ∷ xs) ys b = ground (arith, has_key-append xs ys b)

  pub insert_key-Distinct : (a : A) (xs : List A) → Distinct xs → Distinct (insert_key a xs)
  unfolding has_key insert_key
  insert_key-Distinct a [] d = (refl, tt)
  insert_key-Distinct a (x ∷ xs) d = ground (
    arith,
    e.same_lem x a,
    e.same_lem a x,
    has_key-insert_key a x xs,
    insert_key-Distinct a xs d.1,
  )

  pub keep-Distinct : (p : A → Bool) (xs : List A) → Distinct xs → Distinct (keep p xs)
  unfolding has_key keep
  keep-Distinct p [] d = tt
  keep-Distinct p (x ∷ xs) d = ground (arith, has_key-keep p x xs, keep-Distinct p xs d.1)

  pub delete_key-Distinct : (a : A) (xs : List A) → Distinct xs → Distinct (delete_key a xs)
  unfolding has_key delete_key
  delete_key-Distinct a [] d = tt
  delete_key-Distinct a (x ∷ xs) d =
      ground (arith, has_key-delete_key a x xs, delete_key-Distinct a xs d.1)

  pub has_key_self : (a : A) (xs : List A) → has_key (a ∷ xs) a ≡ true
  unfolding has_key
  has_key_self a xs = ground (arith, e.same_lem a a)

  pub append-Distinct :
      (xs : List A) (a : A) → Distinct xs → has_key xs a ≡ false → Distinct (xs ++ a ∷ [])
  unfolding has_key
  append-Distinct [] a d h = (refl, tt)
  append-Distinct (x ∷ xs) a d h = ground (
    arith,
    e.same_lem x a,
    e.same_lem a x,
    has_key-append xs (a ∷ []) x,
    append-Distinct xs a d.1,
  )

  -- No item of the list is a key of the set.
  abbrev pub Fresh : List A → List A → Type 0
  Fresh seen xs = All (λ x. has_key seen x ≡ false) xs

  pub Fresh-insert_key :
      (a : A) (seen xs : List A)
      → Fresh (insert_key a seen) xs ↔ ((has_key xs a ≡ false) × Fresh seen xs)
  unfolding has_key
  Fresh-insert_key a seen [] = (λ f. (refl, tt), λ f. tt)
  Fresh-insert_key a seen (x ∷ xs) = ground (
    arith,
    has_key-insert_key a x seen,
    e.same_lem a x,
    e.same_lem x a,
    Fresh-insert_key a seen xs,
  )

  pub Fresh-nil : (xs : List A) → Fresh [] xs
  unfolding has_key
  Fresh-nil [] = tt
  Fresh-nil (x ∷ xs) = (refl, Fresh-nil xs)
