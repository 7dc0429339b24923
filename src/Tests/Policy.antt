-- ===== src/Tests/Policy.antt =====
-- Runs of the policy: flows of labels, decisions, filtering (internal/difc).
use gh_aw_mcpg.Common.{
  ◌≡◌, ◌↔◌, refl, true, not, ◌&&◌, [], ◌∷◌, Option, none, some, is_nil, if◌then◌else◌,
}
use gh_aw_mcpg.Common.Text.{Str, bytes, str_eq}
use gh_aw_mcpg.Difc.TagSet.{Tag}
use gh_aw_mcpg.Difc.Label.{Label, new_label, wildcard_tag}
use gh_aw_mcpg.Difc.Flow.{FlowLabel, secrecy, integrity}
use gh_aw_mcpg.Difc.Mode.{strict, read, read_write}
use gh_aw_mcpg.Difc.Resource.{LabeledResource, CollectionLabeledData}
use gh_aw_mcpg.Difc.Evaluator.{Evaluator, is_allowed, evaluate, evaluate_write}
use gh_aw_mcpg.Difc.Evaluator.Write.{
  Writable, ReadPasses, evaluate_write-allowed_iff, evaluate-read_write_iff,
}
use gh_aw_mcpg.Difc.Pipeline.{
  collection, items, FilterResult, is_strict, filter_and_convert_labeled_data,
}
use gh_aw_mcpg.Difc.Pipeline.Laws.{denied_items, allowed_data, filter_and_convert-collection}

abbrev private_tag : Tag
private_tag = bytes "private:github/secret"

abbrev approved_tag : Tag
approved_tag = bytes "approved:github"

abbrev strict_evaluator : Evaluator
strict_evaluator = record { mode = strict }

abbrev trusted : Label
trusted = record { tags = approved_tag ∷ [] }

abbrev secret : Label
secret = record { tags = private_tag ∷ [] }

abbrev secret_file : LabeledResource
secret_file = record {
  description = bytes "file";
  secrecy = record { label = some secret };
  integrity = record { label = some trusted };
}

abbrev public_page : LabeledResource
public_page = record {
  description = bytes "page";
  secrecy = record { label = some new_label };
  integrity = record { label = some trusted };
}

abbrev search_results : CollectionLabeledData Str
search_results = record {
  items =
      record { content = bytes "page"; labels = some public_page }
      ∷ record { content = bytes "file"; labels = some secret_file }
      ∷ [];
}

abbrev of_secret : Option (FlowLabel secrecy)
of_secret = some (record { label = some secret })

abbrev of_all : Option (FlowLabel secrecy)
of_all = some (record { label = some (record { tags = wildcard_tag ∷ [] }) })

abbrev of_approved : Option (FlowLabel integrity)
of_approved = some (record { label = some trusted })

evaluate_write-allowed_iff_example :
    (is_allowed (evaluate_write strict_evaluator secret trusted public_page) ≡ true)
    ↔ Writable secret trusted public_page
evaluate_write-allowed_iff_example =
    evaluate_write-allowed_iff strict_evaluator secret trusted public_page

evaluate-read_write_iff_example :
    (is_allowed (evaluate strict_evaluator secret trusted secret_file read_write) ≡ true)
    ↔ (ReadPasses strict_evaluator secret trusted secret_file × Writable secret trusted secret_file)
evaluate-read_write_iff_example =
    evaluate-read_write_iff strict_evaluator secret trusted secret_file

filter_and_convert-collection_example :
    (r : FilterResult Str) × (filter_and_convert_labeled_data strict_evaluator new_label trusted
        read
        (some (collection search_results))
        strict
      ≡ some r)
    × (r.blocked ≡ (
        is_strict strict
        && not (is_nil (denied_items strict_evaluator new_label trusted read search_results))))
    × (r.final_result ≡ (
        if r.blocked
        then none
        else some (items (allowed_data strict_evaluator new_label trusted read search_results))))
filter_and_convert-collection_example =
    filter_and_convert-collection strict_evaluator new_label trusted read strict search_results
      (refl, (refl, tt))
