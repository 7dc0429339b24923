-- ===== src/Guard/Sink.antt =====
-- Which agents may write to a write-sink (internal/guard/write_sink.go).
use gh_aw_mcpg.Common.{
  ◌≡◌, ◌↔◌, ◌⊎◌, inl, inr, refl, true, false, List, [], ◌∷◌, Option, some, arith, has_key,
  Bool-cases, ◌==◌, if◌then◌else◌,
}
use gh_aw_mcpg.Common.Text.{Str, bytes, str_eq}
use gh_aw_mcpg.Difc.TagSet.{Tag, contains}
use gh_aw_mcpg.Difc.Label.{Label, new_label, wildcard_tag}
use gh_aw_mcpg.Difc.Label.Laws.{has_tag, contains-new_label, contains-new_label_with_tags}
use gh_aw_mcpg.Difc.Flow.{new_secrecy_label, new_integrity_label}
use gh_aw_mcpg.Difc.Flow.Laws.{FlowsTo}
use gh_aw_mcpg.Difc.Resource.{LabeledResource, new_labeled_resource}
use gh_aw_mcpg.Difc.Evaluator.{Evaluator, is_allowed, evaluate_write}
use gh_aw_mcpg.Difc.Evaluator.Write.{Writable, evaluate_write-allowed_iff}
use gh_aw_mcpg.Guard.{WriteSinkGuard, sink_resource}

-- The sink takes agents without secrecy if it is public; else those whose secrecy tags it accepts.
abbrev pub Accepts : WriteSinkGuard → Label → Type 0
Accepts g s =
    (((g.sink_visibility == bytes "public") ≡ true) × ((t : Tag) → contains s t ≡ false))
    ⊎ (((g.sink_visibility == bytes "public") ≡ false)
        × ((has_key g.accept_tags wildcard_tag ≡ true)
            ⊎ ((t : Tag) → contains s t ≡ true → has_key g.accept_tags t ≡ true)))

has_tag-new_secrecy_label :
    (tags : List Tag) (t : Tag) → has_tag (new_secrecy_label tags).label t ≡ has_key tags t
unfolding new_secrecy_label has_key contains
has_tag-new_secrecy_label [] t = refl
has_tag-new_secrecy_label (x ∷ tags) t = contains-new_label_with_tags (x ∷ tags) t

-- what requires no tag is trusted by every agent
nothing_required : (i : Label) → FlowsTo (some new_label) (some i)
nothing_required i = inr (λ t h. ground (arith, contains-new_label t))

public_iff :
    (s i : Label)
    → (FlowsTo (some s) (some new_label) × FlowsTo (some new_label) (some i))
      ↔ ((t : Tag) → contains s t ≡ false)
public_iff s i = (
  λ h. λ t. elim h.0 [
    | inl w ↦ ground (arith, contains-new_label wildcard_tag)
    | inr sub ↦ ground (arith, sub t, contains-new_label t)
  ],
  λ clean. (inr (λ t h. ground (arith, clean t)), nothing_required i),
)

accept_iff :
    (tags : List Tag) (s i : Label)
    → (FlowsTo (some s) (new_secrecy_label tags).label × FlowsTo (some new_label) (some i)) ↔ (
        (has_key tags wildcard_tag ≡ true)
        ⊎ ((t : Tag) → contains s t ≡ true → has_key tags t ≡ true))
accept_iff tags s i = (
  λ h. elim h.0 [
    | inl w ↦ inl (ground (arith, has_tag-new_secrecy_label tags wildcard_tag))
    | inr sub ↦ inr (λ t k. ground (arith, sub t k, has_tag-new_secrecy_label tags t))
  ],
  λ a. (
    elim a [
      | inl w ↦ inl (ground (arith, has_tag-new_secrecy_label tags wildcard_tag))
      | inr sub ↦ inr (λ t k. ground (arith, sub t k, has_tag-new_secrecy_label tags t))
    ],
    nothing_required i,
  ),
)

-- a resource's labels, named
labels_named :
    (r : LabeledResource) (s i : Label) (sec int : Option Label)
    → r.secrecy.label ≡ sec
    → r.integrity.label ≡ int
    → Writable s i r ↔ (FlowsTo (some s) sec × FlowsTo int (some i))
labels_named r s i sec int p q = rw (p, q) (λ h. h, λ h. h)

sink_integrity :
    (g : WriteSinkGuard) (tool : Str) → (sink_resource g tool).integrity.label ≡ some new_label
unfolding sink_resource new_labeled_resource new_integrity_label
sink_integrity g tool = ground arith

sink_secrecy :
    (g : WriteSinkGuard) (tool : Str)
    → (sink_resource g tool).secrecy.label ≡ (
        if g.sink_visibility == bytes "public"
        then some new_label
        else (new_secrecy_label g.accept_tags).label)
unfolding sink_resource new_labeled_resource new_secrecy_label
sink_secrecy g tool = ground arith

sink_takes_iff :
    (g : WriteSinkGuard) (tool : Str) (s i : Label)
    → Writable s i (sink_resource g tool) ↔ Accepts g s
sink_takes_iff g tool s i = elim (Bool-cases (g.sink_visibility == bytes "public")) [
  | inl public ↦
      let (parts, whole) =
        labels_named (sink_resource g tool) s i (some new_label) (some new_label)
          (rw (sink_secrecy g tool, public) refl) (sink_integrity g tool) in
      let (to, from) = public_iff s i in
      (
        λ h. inl (public, to (parts h)),
        λ a. elim a [ inl (_, clean) ↦ whole (from clean) | inr (hidden, _) ↦ ground arith ],
      )
  | inr hidden ↦
      let (parts, whole) =
        labels_named (sink_resource g tool) s i (new_secrecy_label g.accept_tags).label
          (some new_label) (rw (sink_secrecy g tool, hidden) refl) (sink_integrity g tool) in
      let (to, from) = accept_iff g.accept_tags s i in
      (
        λ h. inr (hidden, to (parts h)),
        λ a. elim a [ inl (public, _) ↦ ground arith | inr (_, accepted) ↦ whole (from accepted) ],
      )
]

-- In every mode, a write to a write-sink is allowed exactly to the agents that it takes: if its
-- visibility is public, those with no secrecy tag, whatever it accepts; else those whose secrecy tags
-- it accepts, or all of them if it accepts the wildcard tag. Their integrity does not matter.
pub sink_resource-evaluate_write :
    (e : Evaluator) (g : WriteSinkGuard) (tool : Str) (s i : Label)
    → (is_allowed (evaluate_write e s i (sink_resource g tool)) ≡ true) ↔ Accepts g s
sink_resource-evaluate_write e g tool s i =
    let (to, from) = evaluate_write-allowed_iff e s i (sink_resource g tool) in
    let (accept, write) = sink_takes_iff g tool s i in (λ h. accept (to h), λ a. from (write a))
