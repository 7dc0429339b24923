-- ===== src/Difc/Flow/Laws.antt =====
-- The flow check against the subset order on tags (internal/difc/flow_labels.go).
use gh_aw_mcpg.Common.{
  ◌≡◌, refl, ◌∙◌, ◌↔◌, ◌⊎◌, inl, inr, true, false, not, ◌&&◌, List, [], ◌∷◌, some, none, Option,
  arith, has_key, has_key-keep, is_nil, Bool-cases, has_key_self,
}
use gh_aw_mcpg.Common.Text.{str_eq}
use gh_aw_mcpg.Difc.TagSet
use gh_aw_mcpg.Difc.TagSet.{Tag, contains}
use gh_aw_mcpg.Difc.Label.{Label, wildcard_tag}
use gh_aw_mcpg.Difc.Label.Laws.{has_tag}
use gh_aw_mcpg.Difc.Flow.{
  LabelKind, secrecy, integrity, FlowLabel, get_label, check_flow_helper, check_flow, can_flow_to,
}

-- Every tag of the first label is a tag of the second.
abbrev pub Subset : Option Label → Option Label → Type 0
Subset a b = (t : Tag) → has_tag a t ≡ true → has_tag b t ≡ true

-- The target accepts all tags, or has each tag of the source.
abbrev pub FlowsTo : Option Label → Option Label → Type 0
FlowsTo a b = (has_tag b wildcard_tag ≡ true) ⊎ Subset a b

has_key_of_is_nil : (xs : List Tag) (t : Tag) → is_nil xs ≡ true → has_key xs t ≡ false
unfolding has_key
has_key_of_is_nil [] t h = refl
has_key_of_is_nil (x ∷ xs) t h = cc

is_nil_of_has_key : (xs : List Tag) → ((t : Tag) → has_key xs t ≡ false) → is_nil xs ≡ true
is_nil_of_has_key [] h = refl
is_nil_of_has_key (x ∷ xs) h = cc (h x, has_key_self x xs)

-- The integrity check is the secrecy check with source and target swapped, verdict and tags alike.
pub check_flow_helper_dual :
    (a b : Option Label) → check_flow_helper a b false ≡ check_flow_helper b a true
unfolding check_flow_helper
check_flow_helper_dual none none = refl
check_flow_helper_dual none (some b) = refl
check_flow_helper_dual (some a) none = refl
check_flow_helper_dual (some a) (some b) = refl

-- the verdict is that there is no violating tag
pub check_flow_helper_verdict :
    (a b : Option Label) → (check_flow_helper a b true).0 ≡ is_nil (check_flow_helper a b true).1
unfolding check_flow_helper TagSet.is_empty TagSet.get_all
check_flow_helper_verdict none b = refl
check_flow_helper_verdict (some a) none = ground arith
check_flow_helper_verdict (some a) (some b) = ground arith

-- the violating tags are the source's tags that the target lacks, unless the target accepts all
pub has_key-check_flow_helper :
    (a b : Option Label) (t : Tag)
    → has_key (check_flow_helper a b true).1 t
      ≡ (not (has_tag b wildcard_tag) && (has_tag a t && not (has_tag b t)))
unfolding check_flow_helper TagSet.is_empty TagSet.get_all contains
has_key-check_flow_helper none b t = ground (arith, has_key_of_is_nil [] t)
has_key-check_flow_helper (some a) none t =
    ground (arith, has_key_of_is_nil a.tags t, has_key_of_is_nil [] t)
has_key-check_flow_helper (some a) (some b) t =
    ground (arith, has_key-keep (λ tag. not (has_key b.tags tag)) t a.tags, has_key_of_is_nil [] t)

pub check_flow_helper-FlowsTo :
    (a b : Option Label) → (check_flow_helper a b true).0 ≡ true → FlowsTo a b
check_flow_helper-FlowsTo a b h = elim (Bool-cases (has_tag b wildcard_tag)) [
  | inl w ↦ inl w
  | inr n ↦ inr (λ t m. ground (
    arith,
    has_key-check_flow_helper a b t,
    has_key_of_is_nil (check_flow_helper a b true).1 t,
    check_flow_helper_verdict a b,
  ))
]

pub FlowsTo-check_flow_helper :
    (a b : Option Label) → FlowsTo a b → (check_flow_helper a b true).0 ≡ true
FlowsTo-check_flow_helper a b f =
    check_flow_helper_verdict a b
    ∙ is_nil_of_has_key (check_flow_helper a b true).1 (λ t. absent t f)
  where
    absent : (t : Tag) → FlowsTo a b → has_key (check_flow_helper a b true).1 t ≡ false
    absent t (inl w) = ground (arith, has_key-check_flow_helper a b t)
    absent t (inr s) = ground (arith, has_key-check_flow_helper a b t, s t)

pub FlowsTo_trans : (a b c : Option Label) → FlowsTo a b → FlowsTo b c → FlowsTo a c
FlowsTo_trans a b c f (inl w) = inl w
FlowsTo_trans a b c (inl w) (inr s) = inl (s wildcard_tag w)
FlowsTo_trans a b c (inr r) (inr s) = inr (λ t h. s t (r t h))

-- which way the tags of a label of the kind have to be included
abbrev pub MayFlow : {kind : LabelKind} → Option (FlowLabel kind) → Option (FlowLabel kind) → Type 0
MayFlow {kind = secrecy} l target = FlowsTo (get_label l) (get_label target)
MayFlow {kind = integrity} l target = FlowsTo (get_label target) (get_label l)

-- `CanFlowTo` on pointers that may be nil: a secrecy label flows exactly to the labels that hold the
-- wildcard tag or all of its tags; an integrity label flows exactly to those whose tags it all
-- holds, or anywhere if it holds the wildcard tag.
pub can_flow_to_iff :
    (kind : LabelKind) (l target : Option (FlowLabel kind))
    → (can_flow_to l target ≡ true) ↔ MayFlow l target
unfolding can_flow_to
can_flow_to_iff secrecy l target = (
  check_flow_helper-FlowsTo (get_label l) (get_label target),
  FlowsTo-check_flow_helper (get_label l) (get_label target),
)
can_flow_to_iff integrity l target =
    rw (check_flow_helper_dual (get_label l) (get_label target), can_flow_to)
      (
        check_flow_helper-FlowsTo (get_label target) (get_label l),
        FlowsTo-check_flow_helper (get_label target) (get_label l),
      )

-- `CanFlowTo` is transitive for both kinds of label, wildcard tags and nil pointers included.
pub can_flow_to_trans :
    (kind : LabelKind) (a b c : Option (FlowLabel kind))
    → can_flow_to a b ≡ true
    → can_flow_to b c ≡ true
    → can_flow_to a c ≡ true
can_flow_to_trans secrecy a b c h k = (can_flow_to_iff secrecy a c).1 (
    FlowsTo_trans (get_label a) (get_label b) (get_label c) ((can_flow_to_iff secrecy a b).0 h)
      ((can_flow_to_iff secrecy b c).0 k))
can_flow_to_trans integrity a b c h k = (can_flow_to_iff integrity a c).1 (
    FlowsTo_trans (get_label c) (get_label b) (get_label a) ((can_flow_to_iff integrity b c).0 k)
      ((can_flow_to_iff integrity a b).0 h))

-- The tags that `CheckFlow` reports for secrecy are exactly the source's tags that the target lacks,
-- and none if the target holds the wildcard tag; it allows the flow exactly if it reports none.
pub check_flow_secrecy :
    (l target : Option (FlowLabel secrecy)) (t : Tag)
    → (has_key (check_flow l target).1 t ≡ (
        not (has_tag (get_label target) wildcard_tag)
        && (has_tag (get_label l) t && not (has_tag (get_label target) t))))
      × ((check_flow l target).0 ≡ is_nil (check_flow l target).1)
unfolding check_flow
check_flow_secrecy l target t = (
  has_key-check_flow_helper (get_label l) (get_label target) t,
  check_flow_helper_verdict (get_label l) (get_label target),
)

-- The tags that `CheckFlow` reports for integrity are exactly the target's tags that the source
-- lacks, and none if the source holds the wildcard tag; it allows the flow exactly if it reports
-- none.
pub check_flow_integrity :
    (l target : Option (FlowLabel integrity)) (t : Tag)
    → (has_key (check_flow l target).1 t ≡ (
        not (has_tag (get_label l) wildcard_tag)
        && (has_tag (get_label target) t && not (has_tag (get_label l) t))))
      × ((check_flow l target).0 ≡ is_nil (check_flow l target).1)
unfolding check_flow
check_flow_integrity l target t =
    rw (check_flow_helper_dual (get_label l) (get_label target), check_flow)
      (
        has_key-check_flow_helper (get_label target) (get_label l) t,
        check_flow_helper_verdict (get_label target) (get_label l),
      )
