-- ===== src/Difc/Label/Laws.antt =====
-- Membership after each operation on labels, and that no tag is kept twice.
use gh_aw_mcpg.Common.{
  ◌≡◌, refl, Bool, false, ◌&&◌, ◌||◌, List, [], ◌∷◌, some, none, Option, arith, has_key, insert_key,
  Distinct, has_key-insert_key, has_key-keep, insert_key-Distinct, keep-Distinct,
}
use gh_aw_mcpg.Common.Text.{str_beq_iff, str_eq}
use gh_aw_mcpg.Difc.TagSet
use gh_aw_mcpg.Difc.TagSet.{Tag, contains}
use gh_aw_mcpg.Difc.TagSet.Laws.{IsTagSet}
use gh_aw_mcpg.Difc.Label.{
  Label, union, merge_tags, intersect, clone, copy_tags, new_label, new_label_with_tags,
}

-- the tags behind a pointer that may be nil
abbrev pub has_tag : Option Label → Tag → Bool
has_tag none t = false
has_tag (some l) t = contains l t

merge_tags-has_key :
    (other tags : List Tag) (t : Tag)
    → has_key (merge_tags other tags) t ≡ (has_key other t || has_key tags t)
unfolding has_key merge_tags
merge_tags-has_key [] tags t = refl
merge_tags-has_key (n ∷ other) tags t = ground (
  arith,
  str_beq_iff n t,
  has_key-insert_key n t tags,
  merge_tags-has_key other tags t,
  merge_tags-has_key other (insert_key n tags) t,
)

pub contains-union :
    (l : Label) (other : Option Label) (t : Tag)
    → contains (union l other) t ≡ (has_tag other t || contains l t)
unfolding contains union
contains-union l none t = refl
contains-union l (some other) t = merge_tags-has_key other.tags l.tags t

pub contains-intersect :
    (l : Label) (other : Option Label) (t : Tag)
    → contains (intersect l other) t ≡ (has_tag other t && contains l t)
unfolding contains intersect has_key
contains-intersect l none t = refl
contains-intersect l (some other) t = has_key-keep (has_key other.tags) t l.tags

copy_tags-has_key :
    (from tags : List Tag) (t : Tag)
    → has_key (copy_tags from tags) t ≡ (has_key from t || has_key tags t)
unfolding has_key copy_tags
copy_tags-has_key [] tags t = refl
copy_tags-has_key (n ∷ from) tags t =
    ground (arith, has_key-insert_key n t tags, copy_tags-has_key from (insert_key n tags) t)

pub contains-clone : (l : Label) (t : Tag) → contains (clone l) t ≡ contains l t
unfolding contains clone has_key
contains-clone l t = ground (arith, copy_tags-has_key l.tags [] t)

merge_tags-Distinct : (other tags : List Tag) → Distinct tags → Distinct (merge_tags other tags)
unfolding merge_tags
merge_tags-Distinct [] tags d = d
merge_tags-Distinct (n ∷ other) tags d = ground (
  arith,
  merge_tags-Distinct other tags d,
  merge_tags-Distinct other (insert_key n tags) (insert_key-Distinct n tags d),
)

pub union-IsTagSet : (l : Label) (other : Option Label) → IsTagSet l → IsTagSet (union l other)
unfolding union
union-IsTagSet l none d = d
union-IsTagSet l (some other) d = merge_tags-Distinct other.tags l.tags d

pub intersect-IsTagSet :
    (l : Label) (other : Option Label) → IsTagSet l → IsTagSet (intersect l other)
unfolding intersect
intersect-IsTagSet l none d = tt
intersect-IsTagSet l (some other) d = keep-Distinct (has_key other.tags) l.tags d

pub contains-new_label : (t : Tag) → contains new_label t ≡ false
unfolding contains has_key
contains-new_label t = refl

pub contains-new_label_with_tags :
    (tags : List Tag) (t : Tag) → contains (new_label_with_tags tags) t ≡ has_key tags t
unfolding new_label_with_tags contains has_key
contains-new_label_with_tags tags t = ground (arith, TagSet.Laws.contains-add_all new_label tags t)
