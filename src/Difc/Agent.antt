-- ===== src/Difc/Agent.antt =====
-- internal/difc/agent.go, the labels of one agent. Each method holds the agent's lock, so it is one
-- step; the two labels are set by the constructors and never nil.
use gh_aw_mcpg.Common.{
  Bool, true, false, not, ◌||◌, List, [], ◌∷◌, Option, none, some, is_nil, if◌then◌else◌,
}
use gh_aw_mcpg.Common.Text.{Str}
use gh_aw_mcpg.Difc.TagSet
use gh_aw_mcpg.Difc.TagSet.{Tag}
use gh_aw_mcpg.Difc.Label
use gh_aw_mcpg.Difc.Label.{Label, new_label, new_label_with_tags}
use gh_aw_mcpg.Difc.Resource.{LabeledResource}
use gh_aw_mcpg.Difc.Evaluator.{EvaluationResult, requires_propagation}
pub mod Laws
pub mod Propagation
pub mod Taint

pub record AgentLabels : Type 0 where
  pub agent_id : Str
  pub secrecy : Label
  pub integrity : Label

unfoldable pub new_agent_labels : Str → AgentLabels
new_agent_labels agent_id = record {
  agent_id = agent_id;
  secrecy = new_label;
  integrity = new_label;
}

-- the label of `NewSecrecyLabel(tags...)` and `NewIntegrityLabel(tags...)`
abbrev label_with : List Tag → Label
label_with [] = new_label
label_with (tag ∷ tags) = new_label_with_tags (tag ∷ tags)

unfoldable pub new_agent_labels_with_tags : Str → List Tag → List Tag → AgentLabels
new_agent_labels_with_tags agent_id secrecy_tags integrity_tags = record {
  agent_id = agent_id;
  secrecy = label_with secrecy_tags;
  integrity = label_with integrity_tags;
}

pub add_secrecy_tag : AgentLabels → Tag → AgentLabels
add_secrecy_tag a tag = record a { secrecy = TagSet.add a.secrecy tag }

pub add_integrity_tag : AgentLabels → Tag → AgentLabels
add_integrity_tag a tag = record a { integrity = TagSet.add a.integrity tag }

pub drop_integrity_tag : AgentLabels → Tag → AgentLabels
drop_integrity_tag a tag = record a { integrity = TagSet.remove a.integrity tag }

pub drop_integrity_tags : AgentLabels → List Tag → AgentLabels
drop_integrity_tags a tags = record a { integrity = TagSet.remove_all a.integrity tags }

unfoldable pub add_secrecy_tags : AgentLabels → List Tag → AgentLabels
add_secrecy_tags a tags = record a { secrecy = TagSet.add_all a.secrecy tags }

unfoldable pub add_integrity_tags : AgentLabels → List Tag → AgentLabels
add_integrity_tags a tags = record a { integrity = TagSet.add_all a.integrity tags }

-- the two conditional updates of `ApplyPropagation`, and whether one was made
propagate_labels : AgentLabels → List Tag → List Tag → AgentLabels × Bool
unfolding add_secrecy_tags drop_integrity_tags
propagate_labels a to_add to_drop =
    let tainted = if is_nil to_add then a else add_secrecy_tags a to_add in
    let lowered = if is_nil to_drop then tainted else drop_integrity_tags tainted to_drop in
    (lowered, not (is_nil to_add) || not (is_nil to_drop))

pub apply_propagation : AgentLabels → Option EvaluationResult → AgentLabels × Bool
unfolding propagate_labels
apply_propagation a none = (a, false)
apply_propagation a (some result) =
    if requires_propagation result
    then propagate_labels a result.secrecy_to_add result.integrity_to_drop
    else (a, false)

-- the union with a resource's secrecy, if that is not nil and not empty
taint : Label → Option Label → Label
taint l none = l
taint l (some other) = if TagSet.is_empty other then l else Label.union l (some other)

-- the intersection with a resource's integrity, if that is not nil
lower_trust : Label → Option Label → Label
lower_trust l none = l
lower_trust l (some other) = Label.intersect l (some other)

pub accumulate_from_read : AgentLabels → LabeledResource → AgentLabels
unfolding taint lower_trust
accumulate_from_read a resource = record a {
  secrecy = taint a.secrecy resource.secrecy.label;
  integrity = lower_trust a.integrity resource.integrity.label;
}

unfoldable pub clone : AgentLabels → AgentLabels
clone a = record a { secrecy = Label.clone a.secrecy; integrity = Label.clone a.integrity }

unfoldable pub get_secrecy_tags : AgentLabels → List Tag
get_secrecy_tags a = TagSet.get_all a.secrecy

unfoldable pub get_integrity_tags : AgentLabels → List Tag
get_integrity_tags a = TagSet.get_all a.integrity
