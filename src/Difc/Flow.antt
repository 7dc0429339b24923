-- ===== src/Difc/Flow.antt =====
-- internal/difc/flow_labels.go: which label may flow to which, with the tags that prevent it.
use gh_aw_mcpg.Common.{
  Bool, true, false, List, [], Option, none, some, has_key, keep, is_nil, if◌then◌else◌, not,
}
use gh_aw_mcpg.Common.Text.{Str, bytes, str_eq}
use gh_aw_mcpg.Difc.TagSet
use gh_aw_mcpg.Difc.TagSet.{Tag}
pub mod Laws
use gh_aw_mcpg.Difc.Label.{Label, wildcard_tag, new_label, new_label_with_tags, clone_label_or_new}

-- the phantom kinds `secrecyKind` and `integrityKind`
pub data LabelKind : Type 0 where
  secrecy integrity : LabelKind

abbrev pub is_subset : LabelKind → Bool
is_subset secrecy = true
is_subset integrity = false

abbrev pub type_name : LabelKind → Str
type_name secrecy = bytes "Secrecy"
type_name integrity = bytes "Integrity"

pub record FlowLabel (kind : LabelKind) : Type 0 where
  pub label : Option Label

abbrev pub SecrecyLabel : Type 0
SecrecyLabel = FlowLabel secrecy

abbrev pub IntegrityLabel : Type 0
IntegrityLabel = FlowLabel integrity

unfoldable pub new_secrecy_label : List Tag → SecrecyLabel
new_secrecy_label [] = record { label = some new_label }
new_secrecy_label tags = record { label = some (new_label_with_tags tags) }

unfoldable pub new_integrity_label : List Tag → IntegrityLabel
new_integrity_label [] = record { label = some new_label }
new_integrity_label tags = record { label = some (new_label_with_tags tags) }

abbrev pub get_label : {kind : LabelKind} → Option (FlowLabel kind) → Option Label
get_label none = none
get_label (some l) = l.label

-- whether the flow is allowed, and the tags that prevent it
unfoldable pub check_flow_helper : Option Label → Option Label → Bool → Bool × List Tag
check_flow_helper none target true = (true, [])
check_flow_helper none none false = (true, [])
check_flow_helper none (some target) false =
    if TagSet.is_empty target then (true, []) else (false, TagSet.get_all target)
check_flow_helper (some src) none true =
    if TagSet.is_empty src then (true, []) else (false, TagSet.get_all src)
check_flow_helper (some src) none false = (true, [])
check_flow_helper (some src) (some target) true =
    let violating = keep (λ tag. not (has_key target.tags tag)) src.tags in
    if has_key target.tags wildcard_tag then (true, []) else (is_nil violating, violating)
check_flow_helper (some src) (some target) false =
    let violating = keep (λ tag. not (has_key src.tags tag)) target.tags in
    if has_key src.tags wildcard_tag then (true, []) else (is_nil violating, violating)

unfoldable pub check_flow :
    {kind : LabelKind} → Option (FlowLabel kind) → Option (FlowLabel kind) → Bool × List Tag
check_flow {kind} l target = check_flow_helper (get_label l) (get_label target) (is_subset kind)

unfoldable pub can_flow_to :
    {kind : LabelKind} → Option (FlowLabel kind) → Option (FlowLabel kind) → Bool
can_flow_to {kind} l target =
    (check_flow_helper (get_label l) (get_label target) (is_subset kind)).0

unfoldable pub clone : {kind : LabelKind} → Option (FlowLabel kind) → FlowLabel kind
clone l = record { label = some (clone_label_or_new (get_label l)) }
