-- ===== src/Difc/TagSet.antt =====
-- internal/difc/tagset.go and capabilities.go: a set of tags. The lock around each operation makes
-- it one step.
use gh_aw_mcpg.Common.{ℕ, Bool, List, [], ◌∷◌, length, is_nil, has_key, insert_key, delete_key}
use gh_aw_mcpg.Common.Text.{Str, str_eq}
pub mod Laws

abbrev pub Tag : Type 0
Tag = Str

pub record TagSet : Type 0 where
  pub tags : List Tag

abbrev pub new_tag_set : TagSet
new_tag_set = record { tags = [] }

pub add : TagSet → Tag → TagSet
add ts tag = record { tags = insert_key tag ts.tags }

-- the loop of `addAll` over the slice
add_each : List Tag → List Tag → List Tag
add_each [] tags = tags
add_each (tag ∷ rest) tags = add_each rest (insert_key tag tags)

unfoldable pub add_all : TagSet → List Tag → TagSet
unfolding add_each
add_all ts new = record { tags = add_each new ts.tags }

unfoldable pub remove : TagSet → Tag → TagSet
remove ts tag = record { tags = delete_key tag ts.tags }

-- the loop of `removeAll` over the slice
remove_each : List Tag → List Tag → List Tag
remove_each [] tags = tags
remove_each (tag ∷ rest) tags = remove_each rest (delete_key tag tags)

pub remove_all : TagSet → List Tag → TagSet
unfolding remove_each
remove_all ts old = record { tags = remove_each old ts.tags }

unfoldable pub contains : TagSet → Tag → Bool
contains ts tag = has_key ts.tags tag

unfoldable pub get_all : TagSet → List Tag
get_all ts = ts.tags

unfoldable pub clear : TagSet → TagSet
clear ts = new_tag_set

unfoldable pub count : TagSet → ℕ
count ts = length ts.tags

unfoldable pub is_empty : TagSet → Bool
is_empty ts = is_nil ts.tags
