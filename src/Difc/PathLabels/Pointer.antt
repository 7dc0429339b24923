-- ===== src/Difc/PathLabels/Pointer.antt =====
-- JSON pointers as RFC 6901 writes them, and `splitJSONPointer` of internal/difc/path_labels.go.
use gh_aw_mcpg.Common.{
  List, [], ap, arith, eqb, false, if◌then◌else◌, inl, inr, is_nil, map, refl, ℕ, ◌++◌, ◌∙◌, ◌∷◌,
  ◌≡◌, ◌⊎◌,
}
use gh_aw_mcpg.Common.Split.{count_byte, split}
use gh_aw_mcpg.Common.Split.Laws.{Lacks, split-Lacks, split-append}
use gh_aw_mcpg.Common.Text.{Str, str_beq, str_eq}
use gh_aw_mcpg.Difc.PathLabels.{replace_from, split_json_pointer, unescape, without_slash}

abbrev escape : Str → Str
escape [] = []
escape (c ∷ s) =
    if eqb c b'~'
    then b'~' ∷ b'0' ∷ escape s
    else if eqb c b'/'
    then b'~' ∷ b'1' ∷ escape s
    else c ∷ escape s

-- the pointer of the path with the segments given
abbrev pub print_pointer : List Str → Str
print_pointer [] = []
print_pointer (part ∷ parts) = b'/' ∷ (escape part ++ print_pointer parts)

-- with the slashes taken back
abbrev half_escaped : Str → Str
half_escaped [] = []
half_escaped (c ∷ s) = if eqb c b'~' then b'~' ∷ b'0' ∷ half_escaped s else c ∷ half_escaped s

replace_from-escape : (s : Str) → replace_from b'~' b'1' b'/' false (escape s) ≡ half_escaped s
unfolding replace_from
replace_from-escape [] = refl
replace_from-escape (c ∷ s) = ground (arith, replace_from-escape s)

replace_from-half_escaped : (s : Str) → replace_from b'~' b'0' b'~' false (half_escaped s) ≡ s
unfolding replace_from
replace_from-half_escaped [] = refl
replace_from-half_escaped (c ∷ s) = ground (arith, replace_from-half_escaped s)

unescape-escape : (s : Str) → unescape (escape s) ≡ s
unfolding unescape
unescape-escape s =
    ap (replace_from b'~' b'0' b'~' false) (replace_from-escape s) ∙ replace_from-half_escaped s

escape-Lacks : (s : Str) → Lacks b'/' (escape s)
unfolding count_byte
escape-Lacks [] = refl
escape-Lacks (c ∷ s) = ground (arith, escape-Lacks s)

append_nil : (s : Str) → s ++ [] ≡ s
append_nil [] = refl
append_nil (c ∷ s) = ap (λ t. c ∷ t) (append_nil s)

map-unescape-split :
    (part : Str) (parts : List Str)
    → map unescape (split b'/' (escape part ++ print_pointer parts)) ≡ part ∷ parts
map-unescape-split part [] =
    rw (append_nil (escape part), split-Lacks b'/' (escape part) (escape-Lacks part))
      (ap (λ s. s ∷ []) (unescape-escape part))
map-unescape-split part (next ∷ parts) =
    rw (split-append b'/' (escape part) (escape next ++ print_pointer parts) (escape-Lacks part))
      (rw (unescape-escape part) (ap (λ rest. part ∷ rest) (map-unescape-split next parts)))

str_beq-nil : (s : Str) → str_beq s [] ≡ is_nil s
unfolding str_beq
str_beq-nil [] = refl
str_beq-nil (c ∷ s) = refl

is_nil-escape : (c : ℕ) (s t : Str) → is_nil (escape (c ∷ s) ++ t) ≡ false
is_nil-escape c s t = ground arith

-- A pointer is split into the segments of the path that it stands for, but for the path of one empty
-- segment, whose pointer is split into no segment at all.
pub split_json_pointer-print_pointer :
    (parts : List Str)
    → (¬ (parts ≡ [] ∷ []) × (split_json_pointer (print_pointer parts) ≡ parts))
      ⊎ ((parts ≡ [] ∷ []) × (split_json_pointer (print_pointer parts) ≡ []))
unfolding split_json_pointer without_slash str_beq
split_json_pointer-print_pointer [] = inl ((λ h. ground arith), refl)
split_json_pointer-print_pointer ([] ∷ []) = inr (refl, refl)
split_json_pointer-print_pointer ([] ∷ next ∷ parts) =
    inl ((λ h. ground arith), map-unescape-split [] (next ∷ parts))
split_json_pointer-print_pointer ((c ∷ s) ∷ parts) = inl (
  (λ h. ground arith),
  rw (str_beq-nil (escape (c ∷ s) ++ print_pointer parts), is_nil-escape c s (print_pointer parts))
      (map-unescape-split (c ∷ s) parts),
)
