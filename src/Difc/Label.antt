-- ===== src/Difc/Label.antt =====
-- internal/difc/labels.go: a label is a set of tags. `Option Label` is a pointer that may be nil.
use gh_aw_mcpg.Common.{
  Bool, List, [], ◌∷◌, Option, none, some, has_key, insert_key, keep, is_nil, if◌then◌else◌,
}
use gh_aw_mcpg.Common.Text.{Str, bytes, str_eq, trim_space}
use gh_aw_mcpg.Difc.TagSet
use gh_aw_mcpg.Difc.TagSet.{Tag, TagSet, new_tag_set}
pub mod Laws

abbrev pub Label : Type 0
Label = TagSet

-- the tag that matches all others in a subset check
abbrev pub wildcard_tag : Tag
wildcard_tag = bytes "*"

abbrev pub new_label : Label
new_label = new_tag_set

unfoldable pub new_label_with_tags : List Tag → Label
unfolding TagSet.add_all
new_label_with_tags tags = TagSet.add_all new_label tags

-- the loop of `Union` over the other label's tags
merge_tags : List Tag → List Tag → List Tag
merge_tags [] tags = tags
merge_tags (tag ∷ rest) tags =
    merge_tags rest (if has_key tags tag then tags else insert_key tag tags)

pub union : Label → Option Label → Label
unfolding merge_tags
union l none = l
union l (some other) = record { tags = merge_tags other.tags l.tags }

pub intersect : Label → Option Label → Label
intersect l none = new_label
intersect l (some other) = record { tags = keep (has_key other.tags) l.tags }

-- the loop of `Clone`
copy_tags : List Tag → List Tag → List Tag
copy_tags [] tags = tags
copy_tags (tag ∷ rest) tags = copy_tags rest (insert_key tag tags)

pub clone : Label → Label
unfolding copy_tags
clone l = record { tags = copy_tags l.tags [] }

unfoldable pub clone_label_or_new : Option Label → Label
unfolding clone
clone_label_or_new none = new_label
clone_label_or_new (some inner) = clone inner

-- trims each value and skips the empty ones
unfoldable pub strings_to_tags : List Str → List Tag
strings_to_tags [] = []
strings_to_tags (value ∷ rest) =
    let trimmed = trim_space value in
    let tags = strings_to_tags rest in if is_nil trimmed then tags else trimmed ∷ tags

unfoldable pub tags_to_strings : List Tag → List Str
tags_to_strings [] = []
tags_to_strings (tag ∷ rest) = tag ∷ tags_to_strings rest
