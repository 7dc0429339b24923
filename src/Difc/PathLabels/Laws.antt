-- ===== src/Difc/PathLabels/Laws.antt =====
-- Which labels `resolve` of internal/difc/path_labels.go gives each item.
use gh_aw_mcpg.Common.{
  Bool, List, Option, [], ap, arith, eqb, false, if◌then◌else◌, nat_eq, none, refl, some, ℕ, ◌+◌,
  ◌∙◌, ◌∷◌, ◌≡◌,
}
use gh_aw_mcpg.Common.Dict.{lookup, lookup-insert}
use gh_aw_mcpg.Common.Int.{negsuc, pos, ℤ}
use gh_aw_mcpg.Common.Json.{Json}
use gh_aw_mcpg.Common.Result.{ok}
use gh_aw_mcpg.Common.Text.{Str, str_eq}
use gh_aw_mcpg.Difc.PathLabels.{
  PathLabel, PathLabelEntry, PathLabels, extract_index_from_path, extract_raw_items, file_label,
  index_labels, label_items, or_default, path_entry_to_resource, resolve, resolved,
}
use gh_aw_mcpg.Difc.Resource.{LabeledItem}

abbrev is_index : Option ℤ → ℕ → Bool
is_index (some (pos n)) i = eqb n i
is_index other i = false

-- the labels of the last path that names the index
abbrev last_label : Str → List PathLabel → ℕ → Option PathLabelEntry
last_label items_path [] i = none
last_label items_path (pl ∷ pls) i =
    or_default (last_label items_path pls i)
      (if is_index (extract_index_from_path pl.path items_path) i then some pl.labels else none)

abbrev pub expected_items : PathLabels → ℕ → List Json → List (LabeledItem Json)
expected_items pl i [] = []
expected_items pl i (v ∷ vs) =
    record {
      content = v;
      labels = some (
          path_entry_to_resource
            (or_default (last_label pl.items_path pl.labeled_paths i) pl.default_labels));
    }
    ∷ expected_items pl (i + 1) vs

lookup-file_label :
    (at : Option ℤ) (entry : PathLabelEntry) (m : List (ℕ × PathLabelEntry)) (i : ℕ)
    → lookup ⦃e = nat_eq⦄ i (file_label at entry m)
      ≡ or_default (if is_index at i then some entry else none) (lookup ⦃e = nat_eq⦄ i m)
unfolding file_label or_default
lookup-file_label none entry m i = refl
lookup-file_label (some (negsuc n)) entry m i = refl
lookup-file_label (some (pos n)) entry m i = ground (arith, lookup-insert ⦃e = nat_eq⦄ n i entry m)

or_default_assoc :
    (a b c : Option PathLabelEntry) → or_default a (or_default b c) ≡ or_default (or_default a b) c
unfolding or_default
or_default_assoc none b c = refl
or_default_assoc (some a) b c = refl

or_default-none : (a : Option PathLabelEntry) → or_default a none ≡ a
unfolding or_default
or_default-none none = refl
or_default-none (some a) = refl

lookup-index_labels :
    (items_path : Str) (pls : List PathLabel) (m : List (ℕ × PathLabelEntry)) (i : ℕ)
    → lookup ⦃e = nat_eq⦄ i (index_labels items_path pls m)
      ≡ or_default (last_label items_path pls i) (lookup ⦃e = nat_eq⦄ i m)
unfolding index_labels or_default
lookup-index_labels items_path [] m i = refl
lookup-index_labels items_path (pl ∷ pls) m i =
    let at = extract_index_from_path pl.path items_path in
    lookup-index_labels items_path pls (file_label at pl.labels m) i
    ∙ ap (or_default (last_label items_path pls i)) (lookup-file_label at pl.labels m i)
    ∙ or_default_assoc (last_label items_path pls i)
        (if is_index at i then some pl.labels else none) (lookup ⦃e = nat_eq⦄ i m)

label_items-expected_items :
    (pl : PathLabels) (i : ℕ) (vs : List Json)
    → label_items (index_labels pl.items_path pl.labeled_paths []) pl.default_labels i vs
      ≡ expected_items pl i vs
unfolding label_items path_entry_to_resource or_default lookup
label_items-expected_items pl i [] = refl
label_items-expected_items pl i (v ∷ vs) =
    rw
      (
        lookup-index_labels pl.items_path pl.labeled_paths [] i,
        or_default-none (last_label pl.items_path pl.labeled_paths i),
        label_items-expected_items pl (i + 1) vs,
      )
      refl

-- Every element of the array that the items path leads to becomes an item, in order, with the labels of
-- the last path that names its index, or else the default ones, or else those of a resource called
-- unlabeled.
pub resolve-expected_items :
    (original unwrapped : Json) (pl : PathLabels) (vs : List Json)
    → extract_raw_items unwrapped pl.items_path ≡ ok (some vs)
    → resolve original unwrapped pl ≡ ok (expected_items pl 0 vs)
unfolding resolve resolved
resolve-expected_items original unwrapped pl vs h =
    rw h (ap ok (label_items-expected_items pl 0 vs))
