-- ===== src/Difc/TagSet/Laws.antt =====
-- Membership after each operation on a set of tags, and that no tag is kept twice.
use gh_aw_mcpg.Common.{
  ◌≡◌, refl, not, ◌&&◌, ◌||◌, List, [], ◌∷◌, arith, has_key, insert_key, delete_key, Distinct,
  has_key-insert_key, has_key-delete_key, insert_key-Distinct, delete_key-Distinct, ◌==◌,
}
use gh_aw_mcpg.Common.Text.{str_eq}
use gh_aw_mcpg.Difc.TagSet.{
  Tag, TagSet, add, add_all, add_each, remove, remove_all, remove_each, contains,
}

pub contains-add : (ts : TagSet) (a t : Tag) → contains (add ts a) t ≡ (a == t || contains ts t)
unfolding contains add
contains-add ts a t = has_key-insert_key a t ts.tags

pub contains-remove :
    (ts : TagSet) (a t : Tag) → contains (remove ts a) t ≡ (not (a == t) && contains ts t)
unfolding contains remove
contains-remove ts a t = has_key-delete_key a t ts.tags

add_each-has_key :
    (new tags : List Tag) (t : Tag)
    → has_key (add_each new tags) t ≡ (has_key new t || has_key tags t)
unfolding has_key add_each
add_each-has_key [] tags t = refl
add_each-has_key (n ∷ new) tags t =
    ground (arith, has_key-insert_key n t tags, add_each-has_key new (insert_key n tags) t)

pub contains-add_all :
    (ts : TagSet) (new : List Tag) (t : Tag)
    → contains (add_all ts new) t ≡ (has_key new t || contains ts t)
unfolding contains add_all
contains-add_all ts new t = add_each-has_key new ts.tags t

remove_each-has_key :
    (old tags : List Tag) (t : Tag)
    → has_key (remove_each old tags) t ≡ (not (has_key old t) && has_key tags t)
unfolding has_key remove_each
remove_each-has_key [] tags t = ground arith
remove_each-has_key (n ∷ old) tags t =
    ground (arith, has_key-delete_key n t tags, remove_each-has_key old (delete_key n tags) t)

pub contains-remove_all :
    (ts : TagSet) (old : List Tag) (t : Tag)
    → contains (remove_all ts old) t ≡ (not (has_key old t) && contains ts t)
unfolding contains remove_all
contains-remove_all ts old t = remove_each-has_key old ts.tags t

-- The list of the keys of a Go map has no key twice.
abbrev pub IsTagSet : TagSet → Type 0
IsTagSet ts = Distinct ts.tags

add_each-Distinct : (new tags : List Tag) → Distinct tags → Distinct (add_each new tags)
unfolding add_each
add_each-Distinct [] tags d = d
add_each-Distinct (n ∷ new) tags d =
    add_each-Distinct new (insert_key n tags) (insert_key-Distinct n tags d)

remove_each-Distinct : (old tags : List Tag) → Distinct tags → Distinct (remove_each old tags)
unfolding remove_each
remove_each-Distinct [] tags d = d
remove_each-Distinct (n ∷ old) tags d =
    remove_each-Distinct old (delete_key n tags) (delete_key-Distinct n tags d)

pub add_all-IsTagSet : (ts : TagSet) (new : List Tag) → IsTagSet ts → IsTagSet (add_all ts new)
unfolding add_all
add_all-IsTagSet ts new d = add_each-Distinct new ts.tags d

pub remove_all-IsTagSet :
    (ts : TagSet) (old : List Tag) → IsTagSet ts → IsTagSet (remove_all ts old)
unfolding remove_all
remove_all-IsTagSet ts old d = remove_each-Distinct old ts.tags d
