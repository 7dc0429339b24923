-- ===== src/Difc/Agent/Laws.antt =====
-- Which tags an agent holds after each operation (internal/difc/agent.go).
use gh_aw_mcpg.Common.{
  ◌≡◌, refl, Bool, true, false, not, ◌&&◌, ◌||◌, some, none, Option, arith, has_key,
}
use gh_aw_mcpg.Common.Text.{str_eq}
use gh_aw_mcpg.Difc.TagSet.{Tag, contains, is_empty}
use gh_aw_mcpg.Difc.TagSet.Laws.{contains-add_all, contains-remove_all}
use gh_aw_mcpg.Difc.Label.{Label}
use gh_aw_mcpg.Difc.Label.Laws.{has_tag, contains-union, contains-intersect}
use gh_aw_mcpg.Difc.Resource.{LabeledResource}
use gh_aw_mcpg.Difc.Evaluator.{EvaluationResult, requires_propagation}
use gh_aw_mcpg.Difc.Agent.{AgentLabels, apply_propagation, taint, lower_trust, accumulate_from_read}

contains_of_is_empty : (l : Label) (t : Tag) → is_empty l ≡ true → contains l t ≡ false
unfolding contains is_empty has_key
contains_of_is_empty l t h = ground arith

contains-taint :
    (l : Label) (other : Option Label) (t : Tag)
    → contains (taint l other) t ≡ (has_tag other t || contains l t)
unfolding taint
contains-taint l none t = refl
contains-taint l (some other) t =
    ground (arith, contains-union l (some other) t, contains_of_is_empty other t)

-- Reading adds exactly the resource's secrecy tags.
pub contains-accumulate_secrecy :
    (a : AgentLabels) (r : LabeledResource) (t : Tag)
    → contains (accumulate_from_read a r).secrecy t
      ≡ (has_tag r.secrecy.label t || contains a.secrecy t)
unfolding accumulate_from_read
contains-accumulate_secrecy a r t = contains-taint a.secrecy r.secrecy.label t

-- whether the integrity that a read leaves may hold the tag; a nil label lowers nothing
abbrev pub trusts : Option Label → Tag → Bool
trusts none t = true
trusts (some l) t = contains l t

pub contains-accumulate_integrity :
    (a : AgentLabels) (r : LabeledResource) (t : Tag)
    → contains (accumulate_from_read a r).integrity t
      ≡ (trusts r.integrity.label t && contains a.integrity t)
unfolding accumulate_from_read lower_trust
contains-accumulate_integrity a r t =
    elim r.integrity.label
      as (λ o. contains (lower_trust a.integrity o) t ≡ (trusts o t && contains a.integrity t)) [
        | none ↦ refl
        | some l ↦ contains-intersect a.integrity (some l) t
      ]

pub contains-propagation_secrecy :
    (a : AgentLabels) (result : EvaluationResult) (t : Tag)
    → requires_propagation result ≡ true
    → contains (apply_propagation a (some result)).0.secrecy t
      ≡ (has_key result.secrecy_to_add t || contains a.secrecy t)
unfolding apply_propagation has_key
contains-propagation_secrecy a result t h =
    ground (arith, contains-add_all a.secrecy result.secrecy_to_add t)

pub contains-propagation_integrity :
    (a : AgentLabels) (result : EvaluationResult) (t : Tag)
    → requires_propagation result ≡ true
    → contains (apply_propagation a (some result)).0.integrity t
      ≡ (not (has_key result.integrity_to_drop t) && contains a.integrity t)
unfolding apply_propagation has_key
contains-propagation_integrity a result t h =
    ground (arith, contains-remove_all a.integrity result.integrity_to_drop t)
