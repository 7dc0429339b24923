-- ===== src/Common/Dict.antt =====
-- `map[K]V` as the list of its entries, in the order of an iteration over it.
use Prim.Native.Nat.{◌+◌, ◌≤◌}
use mathlib.Core.Path.{◌≡◌, refl}
use mathlib.Core.Bool.{Bool}
use mathlib.Core.Option.{Option, none, some}
use mathlib.Core.List.{List, [], ◌∷◌, ◌++◌}
use mathlib.Core.Logic.{inl, inr}
use native.Mathlib.Omega.{arith}
use gh_aw_mcpg.Common.Tests.{Bool-cases, if◌then◌else◌}
use gh_aw_mcpg.Common.Lists.{length, All}
use gh_aw_mcpg.Common.Equality.{Comparable, ◌==◌}

module _ {ℓ κ} {K : Type ℓ} {V : Type κ} ⦃e : Comparable K⦄ where
  unfoldable pub lookup : K → List (K × V) → Option V
  lookup k [] = none
  lookup k ((j, v) ∷ m) = if j == k then some v else lookup k m

  unfoldable pub insert : K → V → List (K × V) → List (K × V)
  insert k v [] = (k, v) ∷ []
  insert k v ((j, w) ∷ m) = if j == k then (k, v) ∷ m else (j, w) ∷ insert k v m

  unfoldable pub delete : K → List (K × V) → List (K × V)
  delete k [] = []
  delete k ((j, w) ∷ m) = if j == k then delete k m else (j, w) ∷ delete k m

  -- what a loop that deletes the entries failing a test leaves
  unfoldable pub retain : (K → V → Bool) → List (K × V) → List (K × V)
  retain p [] = []
  retain p ((j, w) ∷ m) = if p j w then (j, w) ∷ retain p m else retain p m

  abbrev pub keys : List (K × V) → List K
  keys [] = []
  keys ((j, w) ∷ m) = j ∷ keys m

  -- No key has two entries.
  abbrev pub IsDict : List (K × V) → Type κ
  IsDict [] = Unit
  IsDict ((j, w) ∷ m) = (lookup j m ≡ none) × IsDict m

  -- reading a key after a write: the written value at the key written, else as before
  pub lookup-insert :
      (written key : K) (new : V) (d : List (K × V))
      → lookup key (insert written new d) ≡ (if written == key then some new else lookup key d)
  unfolding insert lookup
  lookup-insert written key new [] = refl
  lookup-insert written key new ((at, old) ∷ d) = ground (
    arith,
    lookup-insert written key new d,
    e.same_lem at key,
    e.same_lem at written,
    e.same_lem written key,
  )

  pub lookup-insert_self : (k : K) (v : V) (m : List (K × V)) → lookup k (insert k v m) ≡ some v
  lookup-insert_self k v m = ground (arith, lookup-insert k k v m, e.same_lem k k)

  pub lookup-delete :
      (k j : K) (m : List (K × V)) → lookup j (delete k m) ≡ (if k == j then none else lookup j m)
  unfolding lookup delete
  lookup-delete k j [] = ground arith
  lookup-delete k j ((i, w) ∷ m) =
      ground (arith, e.same_lem k j, e.same_lem i k, e.same_lem i j, lookup-delete k j m)

  pub length-delete-le : (k : K) (m : List (K × V)) → length (delete k m) ≤ length m
  unfolding delete
  length-delete-le k [] = omega arith
  length-delete-le k ((i, w) ∷ m) = ground (arith, length-delete-le k m)

  pub length-retain-le : (p : K → V → Bool) (m : List (K × V)) → length (retain p m) ≤ length m
  unfolding retain
  length-retain-le p [] = omega arith
  length-retain-le p ((i, w) ∷ m) = ground (arith, length-retain-le p m)

  -- removing a key that is there makes the map shorter
  pub length-delete-lt :
      (k : K) (m : List (K × V)) {v : V} → lookup k m ≡ some v → length (delete k m) + 1 ≤ length m
  unfolding delete lookup
  length-delete-lt k [] h = ground arith
  length-delete-lt k ((i, w) ∷ m) {v} h =
      ground (arith, length-delete-le k m, length-delete-lt k m {v = v})

  -- writing a key that is not there adds one entry
  pub length-insert_new :
      (k : K) (v : V) (m : List (K × V)) → lookup k m ≡ none → length (insert k v m) ≡ length m + 1
  unfolding insert lookup
  length-insert_new k v [] h = omega arith
  length-insert_new k v ((i, w) ∷ m) h = ground (arith, length-insert_new k v m)

  -- writing a key that is there keeps the number of entries
  pub length-insert_old :
      (k : K) (v : V) (m : List (K × V)) {w : V}
      → lookup k m ≡ some w
      → length (insert k v m) ≡ length m
  unfolding insert lookup
  length-insert_old k v [] h = ground arith
  length-insert_old k v ((i, u) ∷ m) {w} h = ground (arith, length-insert_old k v m {w = w})

  pub insert-IsDict : (k : K) (v : V) (m : List (K × V)) → IsDict m → IsDict (insert k v m)
  unfolding insert lookup
  insert-IsDict k v [] d = (refl, tt)
  insert-IsDict k v ((i, u) ∷ m) d =
      ground (arith, e.same_lem i k, e.same_lem k i, lookup-insert k i v m, insert-IsDict k v m d.1)

  pub delete-IsDict : (k : K) (m : List (K × V)) → IsDict m → IsDict (delete k m)
  unfolding delete lookup
  delete-IsDict k [] d = tt
  delete-IsDict k ((i, u) ∷ m) d = ground (arith, lookup-delete k i m, delete-IsDict k m d.1)

  -- on a well-formed map the loop keeps a key exactly when its entry passes
  pub lookup-retain :
      (p : K → V → Bool) (k : K) (m : List (K × V))
      → IsDict m
      → lookup k (retain p m)
        ≡ elim (lookup k m) [ none ↦ none | some v ↦ (if p k v then some v else none) ]
  unfolding lookup retain
  lookup-retain p k [] d = refl
  lookup-retain p k ((i, u) ∷ m) d = ground (arith, e.same_lem i k, lookup-retain p k m d.1)

  pub lookup-retain-none :
      (p : K → V → Bool) (k : K) (m : List (K × V))
      → lookup k m ≡ none
      → lookup k (retain p m) ≡ none
  unfolding lookup retain
  lookup-retain-none p k [] h = refl
  lookup-retain-none p k ((i, u) ∷ m) h = ground (arith, lookup-retain-none p k m)

  pub retain-IsDict : (p : K → V → Bool) (m : List (K × V)) → IsDict m → IsDict (retain p m)
  unfolding retain lookup
  retain-IsDict p [] d = tt
  retain-IsDict p ((i, u) ∷ m) d =
      ground (arith, lookup-retain-none p i m d.0, retain-IsDict p m d.1)

  -- writing a new key appends its entry
  pub insert_new :
      (k : K) (v : V) (m : List (K × V)) → lookup k m ≡ none → insert k v m ≡ m ++ (k, v) ∷ []
  unfolding insert lookup
  insert_new k v [] h = refl
  insert_new k v ((i, w) ∷ m) h = ground (arith, insert_new k v m)

  -- writing what is there changes nothing
  pub insert_same : (k : K) (v : V) (m : List (K × V)) → lookup k m ≡ some v → insert k v m ≡ m
  unfolding insert lookup
  insert_same k v [] h = ground arith
  insert_same k v ((i, w) ∷ m) h = ground (arith, insert_same k v m, e.same_lem i k)

  pub All-insert {μ} :
      (P : K × V → Type μ) (k : K) (v : V) (m : List (K × V))
      → P (k, v)
      → All P m
      → All P (insert k v m)
  unfolding insert
  All-insert P k v [] p a = (p, tt)
  All-insert P k v ((i, w) ∷ m) p a = elim (Bool-cases (i == k)) [
    | inl same ↦ rw same (p, a.1)
    | inr other ↦ rw other (a.0, All-insert P k v m p a.1)
  ]

  -- No entry of the second list has its key in the first.
  abbrev pub Apart : List (K × V) → List (K × V) → Type κ
  Apart d m = All (λ e. lookup e.0 d ≡ none) m

  pub Apart-nil : (m : List (K × V)) → Apart [] m
  unfolding lookup
  Apart-nil [] = tt
  Apart-nil (e ∷ m) = (refl, Apart-nil m)

  lookup-append :
      (j k : K) (v : V) (d : List (K × V))
      → lookup j d ≡ none
      → lookup j (d ++ (k, v) ∷ []) ≡ (if k == j then some v else none)
  unfolding lookup
  lookup-append j k v [] h = refl
  lookup-append j k v ((i, w) ∷ d) h = ground (arith, lookup-append j k v d)

  pub Apart-append :
      (k : K) (v : V) (d m : List (K × V))
      → lookup k m ≡ none
      → Apart d m
      → Apart (d ++ (k, v) ∷ []) m
  unfolding lookup
  Apart-append k v d [] h a = tt
  Apart-append k v d ((i, w) ∷ m) h a =
      ground (arith, lookup-append i k v d, e.same_lem k i, e.same_lem i k, Apart-append k v d m)
