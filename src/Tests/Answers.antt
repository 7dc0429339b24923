-- ===== src/Tests/Answers.antt =====
-- Runs of the code that reads a guard's answers and makes its payloads.
use gh_aw_mcpg.Common.{List, Option, [], false, none, refl, some, true, ◌∷◌, ◌≡◌}
use gh_aw_mcpg.Common.Decimal.{atoi, digits_from}
use gh_aw_mcpg.Common.Dict.{insert, lookup}
use gh_aw_mcpg.Common.Int.{pos}
use gh_aw_mcpg.Common.Json.{
  Json, array, boolean, end, field, integer, null, object, string, to_fields, to_items,
}
use gh_aw_mcpg.Common.Result.{Result, err, ok}
use gh_aw_mcpg.Common.Split.{fields_func, split}
use gh_aw_mcpg.Common.Text.{
  Str, bytes, has_prefix, str_beq, str_eq, strip_prefix, to_lower, trim_space,
}
use gh_aw_mcpg.Config.Codec.Values.{
  decode_items, decode_object, decode_string, decode_strings, trim_parts,
}
use gh_aw_mcpg.Config.Parse.{all_strings, validate_string_array_field}
use gh_aw_mcpg.Difc.Flow.{new_integrity_label, new_secrecy_label}
use gh_aw_mcpg.Difc.Label.{new_label_with_tags}
use gh_aw_mcpg.Difc.Mode.{OperationType, parse_enforcement_mode}
use gh_aw_mcpg.Difc.PathLabels.{
  PathError, PathLabeledData, PathLabels, add_labels, at_index, extract_index_from_path,
  extract_raw_items, first_index, found, get_elem, index_labels, items_of, label_items,
  labeled_resource, navigate, new_path_labeled_data, or_default, path_entry_to_resource,
  replace_from, resolve, resolved, split_json_pointer, step, to_collection_labeled_data, unescape,
  unwrap_mcp_response, unwrap_text, with_slash, without_slash,
}
use gh_aw_mcpg.Difc.Resource.{LabeledItem, LabeledResource, new_labeled_resource}
use gh_aw_mcpg.Difc.TagSet.{add_all}
use gh_aw_mcpg.Guard.{labeled}
use gh_aw_mcpg.Guard.Answer.{
  AnswerError, answered_map, check_bool_failure, check_flag, check_message, decode_payload,
  decode_payload_fields, decode_result_fields, error_message, failure,
  fill_labeled_resource_from_map, is_known_mode, item_labels, no_result, operation_of,
  or_bad_result, parse_collection_labeled_data, parse_difc_tags_from_any, parse_items,
  parse_label_agent_response, parse_resource, parse_resource_response,
}
use gh_aw_mcpg.Guard.Payload.{
  add_users, as_string, build_label_agent_payload, guard_policy_to_map, names,
  normalize_label_list_field, normalize_policy_payload, parsed_object, some_labels, with_bots,
  with_users,
}
use gh_aw_mcpg.Mcp.Result.{
  content_text, extract_text_content, is_text_type, joined_text, normalize_content_items,
  string_or_empty,
}

label_list_text :
    normalize_label_list_field (string (bytes "a, ,b ")) ≡ ok (bytes "a" ∷ bytes "b" ∷ [])
unfolding normalize_label_list_field some_labels trim_parts fields_func trim_space
label_list_text = refl

label_list_array :
    normalize_label_list_field (array (to_items (string (bytes " a ") ∷ []))) ≡ ok (bytes "a" ∷ [])
unfolding normalize_label_list_field as_string trim_space validate_string_array_field all_strings
label_list_array = refl

payload_built :
    build_label_agent_payload
      (object (field (bytes "allow-only") (object end) end))
      (bytes "b" ∷ [])
      (bytes "u" ∷ [])
    ≡ object (
        to_fields (
          (
            bytes "allow-only",
            object (to_fields ((bytes "trusted-users", names (bytes "u" ∷ [])) ∷ [])),
          )
          ∷ (bytes "trusted-bots", names (bytes "b" ∷ []))
          ∷ []))
unfolding build_label_agent_payload with_bots with_users add_users guard_policy_to_map insert lookup
    str_beq
payload_built = refl

abbrev parse_empty : Str → Option Json
parse_empty text = some (object end)

policy_text : normalize_policy_payload parse_empty (string (bytes " {}")) ≡ ok (object end)
unfolding normalize_policy_payload parsed_object trim_space
policy_text = refl

answer_parsed :
    parse_label_agent_response (
      some (
        object (
          to_fields (
            (
              bytes "Agent",
              object (
                  to_fields (
                    (bytes "secrecy", array (to_items (string (bytes "s") ∷ [])))
                    ∷ (bytes "integrity", null)
                    ∷ [])),
            )
            ∷ (bytes "difc_mode", string (bytes "filter"))
            ∷ (bytes "ok", boolean true)
            ∷ []))))
    ≡ ok (record no_result {
      agent = record { secrecy = bytes "s" ∷ []; integrity = [] };
      difc_mode = bytes "filter";
    })
unfolding parse_label_agent_response answered_map check_bool_failure check_flag error_message
    check_message or_bad_result decode_result_fields decode_payload decode_payload_fields
    decode_object decode_string decode_strings decode_items is_known_mode parse_enforcement_mode
    lookup str_beq to_lower trim_space
answer_parsed = refl

answer_rejected :
    parse_label_agent_response (
      some (
        object (
          to_fields
            ((bytes "success", boolean false) ∷ (bytes "error", string (bytes "no")) ∷ []))))
    ≡ err (AnswerError.rejected (bytes "no"))
unfolding parse_label_agent_response answered_map check_bool_failure check_flag error_message
    failure lookup str_beq trim_space
answer_rejected = refl

abbrev labelled : Json
labelled = object (
    to_fields (
      (bytes "description", string (bytes "d"))
      ∷ (bytes "secrecy", array (to_items (string (bytes "s") ∷ null ∷ [])))
      ∷ []))

abbrev labels_read : LabeledResource
labels_read = record {
  description = bytes "d";
  secrecy = new_secrecy_label (bytes "s" ∷ []);
  integrity = new_integrity_label [];
}

resource_parsed :
    parse_resource_response
      ((bytes "operation", string (bytes "read")) ∷ (bytes "resource", labelled) ∷ [])
    ≡ labeled labels_read OperationType.read
unfolding parse_resource_response parse_resource operation_of fill_labeled_resource_from_map
    parse_difc_tags_from_any string_or_empty lookup str_beq
resource_parsed = refl

collection_parsed :
    (parse_collection_labeled_data (
      null
      ∷ object (to_fields ((bytes "data", null) ∷ (bytes "labels", labelled) ∷ []))
      ∷ [])).items
    ≡ record { content = null; labels = some labels_read } ∷ []
unfolding parse_collection_labeled_data parse_items item_labels fill_labeled_resource_from_map
    parse_difc_tags_from_any string_or_empty lookup str_beq
collection_parsed = refl

index_of_path : extract_index_from_path (bytes "/items/15/x") (bytes "items") ≡ some (pos 15)
unfolding extract_index_from_path with_slash has_prefix strip_prefix first_index split_json_pointer
    without_slash split unescape replace_from atoi digits_from str_beq
index_of_path = refl

abbrev one_element : List Json
one_element = integer (pos 7) ∷ []

-- the text of the response, whatever it is, is an object with one array
abbrev parse_items_object : Str → Option Json
parse_items_object text = some (object (field (bytes "items") (array (to_items one_element)) end))

abbrev one_item_labels : PathLabels
one_item_labels = record { labeled_paths = []; default_labels = none; items_path = bytes "/items" }

abbrev resolved_of : Result PathError PathLabeledData → List (LabeledItem Json)
resolved_of (ok pld) = pld.resolved_items
resolved_of (err e) = []

wrapped_response :
    resolved_of (
      new_path_labeled_data parse_items_object
        (object (
          field
            (bytes "content")
            (array (to_items (object (field (bytes "text") (string (bytes "{...}")) end) ∷ [])))
            end))
        one_item_labels)
    ≡ record { content = integer (pos 7); labels = some (new_labeled_resource (bytes "unlabeled")) }
      ∷ []
unfolding new_path_labeled_data unwrap_mcp_response unwrap_text extract_text_content content_text
    normalize_content_items joined_text is_text_type string_or_empty resolve extract_raw_items
    split_json_pointer without_slash split unescape replace_from navigate step found items_of
    resolved index_labels label_items path_entry_to_resource or_default lookup str_beq
wrapped_response = refl

-- an item of an array in an array
nested_items :
    extract_raw_items (array (to_items (array (to_items one_element) ∷ []))) (bytes "/0")
    ≡ ok (some one_element)
unfolding extract_raw_items split_json_pointer without_slash split unescape replace_from navigate
    step at_index get_elem items_of atoi digits_from str_beq
nested_items = refl

entry_added :
    path_entry_to_resource
      (some (record { description = bytes "d"; secrecy = bytes "s" ∷ []; integrity = [] }))
    ≡ labels_read
unfolding path_entry_to_resource labeled_resource add_labels new_labeled_resource add_all
    new_secrecy_label new_integrity_label new_label_with_tags
entry_added = refl

collected : (pld : PathLabeledData) → (to_collection_labeled_data pld).items ≡ pld.resolved_items
unfolding to_collection_labeled_data
collected pld = refl
