-- ===== src/Tests/Agents.antt =====
-- Runs of the agents' labels (internal/difc/agent.go).
use gh_aw_mcpg.Common.{◌≡◌, refl, true, false, List, [], ◌∷◌, some, has_key}
use gh_aw_mcpg.Common.Text.{Str, bytes, str_beq, str_eq}
use gh_aw_mcpg.Difc.TagSet.{Tag, contains}
use gh_aw_mcpg.Difc.Label.{new_label}
use gh_aw_mcpg.Difc.Mode.{strict, propagate}
use gh_aw_mcpg.Difc.Resource.{LabeledResource, CollectionLabeledData, overall}
use gh_aw_mcpg.Difc.Evaluator.{Evaluator, is_allowed, evaluate_write}
use gh_aw_mcpg.Difc.Agent.{AgentLabels, accumulate_from_read}
use gh_aw_mcpg.Difc.Agent.Taint.{
  AgentEvent, drop_integrity, gain_secrecy, gain_integrity, agent_run, accumulate_from_read_no_leak,
  accumulate_from_read_no_launder,
}
use gh_aw_mcpg.Difc.Pipeline.Laws.{accumulate_from_read-overall}

abbrev private_tag : Tag
private_tag = bytes "private:github/secret"

abbrev approved_tag : Tag
approved_tag = bytes "approved:github"

abbrev strict_evaluator : Evaluator
strict_evaluator = record { mode = strict }

abbrev propagating_evaluator : Evaluator
propagating_evaluator = record { mode = propagate }

abbrev agent : AgentLabels
agent = record {
  agent_id = bytes "a";
  secrecy = new_label;
  integrity = record { tags = approved_tag ∷ [] };
}

-- a file of a private repository, which nobody approved
abbrev secret_file : LabeledResource
secret_file = record {
  description = bytes "file";
  secrecy = record { label = some (record { tags = private_tag ∷ [] }) };
  integrity = record { label = some new_label };
}

-- a public page that takes approved content only
abbrev public_page : LabeledResource
public_page = record {
  description = bytes "page";
  secrecy = record { label = some new_label };
  integrity = record { label = some (record { tags = approved_tag ∷ [] }) };
}

abbrev further_events : List AgentEvent
further_events =
    drop_integrity private_tag ∷ gain_secrecy approved_tag ∷ gain_integrity private_tag ∷ []

accumulate_from_read_no_leak_example :
    let a' = agent_run (accumulate_from_read agent secret_file) further_events in
    is_allowed (evaluate_write strict_evaluator a'.secrecy a'.integrity public_page) ≡ false
unfolding contains has_key str_beq
accumulate_from_read_no_leak_example =
    accumulate_from_read_no_leak strict_evaluator agent secret_file public_page private_tag
      further_events refl refl refl

accumulate_from_read_no_launder_example :
    let a' = agent_run (accumulate_from_read agent secret_file) further_events in
    is_allowed (evaluate_write strict_evaluator a'.secrecy a'.integrity public_page) ≡ false
unfolding contains has_key str_beq
accumulate_from_read_no_launder_example =
    accumulate_from_read_no_launder strict_evaluator agent secret_file public_page new_label
      approved_tag further_events refl refl refl refl (refl, (refl, (refl, tt)))
      (refl, (refl, (refl, tt)))

abbrev mixed_items : CollectionLabeledData Str
mixed_items = record {
  items =
      record { content = bytes "page"; labels = some public_page }
      ∷ record { content = bytes "file"; labels = some secret_file }
      ∷ [];
}

accumulate_from_read-overall_example :
    contains (accumulate_from_read agent (overall mixed_items)).integrity approved_tag ≡ true
unfolding contains has_key str_beq
accumulate_from_read-overall_example =
    accumulate_from_read-overall agent mixed_items approved_tag refl refl
