-- ===== src/Difc/Resource/Laws.antt =====
-- What the labels of a whole collection say (internal/difc/resource.go, `Overall`).
use gh_aw_mcpg.Common.{
  ◌≡◌, refl, Bool, true, false, ◌||◌, List, [], ◌∷◌, Option, none, some, arith, has_key,
  Option-cases, inl, inr,
}
use gh_aw_mcpg.Common.Text.{Str, bytes, str_eq}
use gh_aw_mcpg.Difc.TagSet.{Tag, contains}
use gh_aw_mcpg.Difc.Label.{Label}
use gh_aw_mcpg.Difc.Label.Laws.{has_tag, contains-union}
use gh_aw_mcpg.Difc.Resource.{
  LabeledResource, LabeledItem, CollectionLabeledData, new_labeled_resource, add_item, aggregate,
  overall,
}

abbrev pub secrecy_has : Option LabeledResource → Tag → Bool
secrecy_has none t = false
secrecy_has (some r) t = has_tag r.secrecy.label t

abbrev pub integrity_has : Option LabeledResource → Tag → Bool
integrity_has none t = false
integrity_has (some r) t = has_tag r.integrity.label t

module _ {ℓ} {D : Type ℓ} where
  -- whether an item of the collection bears the tag
  abbrev pub some_secret : List (LabeledItem D) → Tag → Bool
  some_secret [] t = false
  some_secret (item ∷ rest) t = secrecy_has item.labels t || some_secret rest t

  abbrev pub some_trusted : List (LabeledItem D) → Tag → Bool
  some_trusted [] t = false
  some_trusted (item ∷ rest) t = integrity_has item.labels t || some_trusted rest t

-- the aggregate's own labels are set
abbrev is_set : Option Label → Bool
is_set none = false
is_set (some l) = true

add_item_lem :
    (o : LabeledResource) (labels : Option LabeledResource) (t : Tag)
    → is_set o.secrecy.label ≡ true
    → is_set o.integrity.label ≡ true
    → (has_tag (add_item o labels).secrecy.label t
        ≡ (secrecy_has labels t || has_tag o.secrecy.label t))
      × (has_tag (add_item o labels).integrity.label t
          ≡ (integrity_has labels t || has_tag o.integrity.label t))
      × (is_set (add_item o labels).secrecy.label ≡ true)
      × (is_set (add_item o labels).integrity.label ≡ true)
unfolding add_item
add_item_lem o none t h k = (refl, refl, h, k)
add_item_lem o (some r) t h k = elim (Option-cases o.secrecy.label) [
  | inl no_s ↦ absurd (ground arith)
  | inr (s, es) ↦ elim (Option-cases o.integrity.label) [
    | inl no_i ↦ absurd (ground arith)
    | inr (i, ei) ↦ (
      ground (arith, contains-union s r.secrecy.label t),
      ground (arith, contains-union i r.integrity.label t),
      ground arith,
      ground arith,
    )
  ]
]

aggregate_lem {ℓ} :
    {D : Type ℓ} (items : List (LabeledItem D)) (o : LabeledResource) (t : Tag)
    → is_set o.secrecy.label ≡ true
    → is_set o.integrity.label ≡ true
    → (has_tag (aggregate o items).secrecy.label t
        ≡ (some_secret items t || has_tag o.secrecy.label t))
      × (has_tag (aggregate o items).integrity.label t
          ≡ (some_trusted items t || has_tag o.integrity.label t))
      × (is_set (aggregate o items).secrecy.label ≡ true)
      × (is_set (aggregate o items).integrity.label ≡ true)
unfolding aggregate
aggregate_lem [] o t h k = (refl, refl, h, k)
aggregate_lem (item ∷ rest) o t h k =
    let (a, b, c, d) = add_item_lem o item.labels t h k in
    let (p, q, x, y) = aggregate_lem rest (add_item o item.labels) t c d in
    (ground arith, ground arith, x, y)

fresh_empty :
    (d : Str) (t : Tag)
    → (has_tag (new_labeled_resource d).secrecy.label t ≡ false)
      × (has_tag (new_labeled_resource d).integrity.label t ≡ false)
      × (is_set (new_labeled_resource d).secrecy.label ≡ true)
      × (is_set (new_labeled_resource d).integrity.label ≡ true)
unfolding new_labeled_resource contains has_key
fresh_empty d t = (refl, refl, refl, refl)

-- The labels of a collection bear a tag, of secrecy or of integrity, exactly if those of some item
-- do.
pub overall-has_tag {ℓ} :
    {D : Type ℓ} (c : CollectionLabeledData D) (t : Tag)
    → (has_tag (overall c).secrecy.label t ≡ some_secret c.items t)
      × (has_tag (overall c).integrity.label t ≡ some_trusted c.items t)
unfolding overall
overall-has_tag c t =
    let e = bytes "empty collection" in
    let n = bytes "collection" in
    let (a, b, x, y) = fresh_empty n t in
    (
      ground (arith, fresh_empty e t, aggregate_lem c.items (new_labeled_resource n) t x y, a),
      ground (arith, fresh_empty e t, aggregate_lem c.items (new_labeled_resource n) t x y, b),
    )
