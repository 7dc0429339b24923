-- ===== src/Guard/Answer.antt =====
-- What a WebAssembly guard answers: internal/guard/wasm_parse.go, and the parts of wasm_labels.go around
-- the calls. An answer is the JSON value of its text; `none` is a text that is no JSON.
use gh_aw_mcpg.Common.{
  Bool, List, Option, [], false, if◌then◌else◌, is_nil, none, not, some, true, ◌==◌, ◌∷◌,
}
use gh_aw_mcpg.Common.Dict.{lookup}
use gh_aw_mcpg.Common.Json.{Json, array, boolean, elements, entries, null, object, string}
use gh_aw_mcpg.Common.Result.{Result, check, err, ok, ◌>>=◌, ◌>>◌}
use gh_aw_mcpg.Common.Text.{Str, bytes, str_eq, to_lower, trim_space}
use gh_aw_mcpg.Config.Codec.Values.{decode_object, decode_string, decode_strings}
use gh_aw_mcpg.Config.Failure.{PolicyError}
use gh_aw_mcpg.Difc.Flow.{new_integrity_label, new_secrecy_label}
use gh_aw_mcpg.Difc.Mode.{OperationType, parse_enforcement_mode}
use gh_aw_mcpg.Difc.Resource.{CollectionLabeledData, LabeledItem, LabeledResource}
use gh_aw_mcpg.Difc.TagSet.{Tag}
use gh_aw_mcpg.Guard.{ResourceOutcome, labeled, resource_error}
use gh_aw_mcpg.Mcp.Result.{string_or_empty}

pub record AgentLabelsPayload : Type 0 where
  pub secrecy : List Str
  pub integrity : List Str

pub record LabelAgentResult : Type 0 where
  pub agent : AgentLabelsPayload
  pub difc_mode : Str
  pub normalized_policy : List (Str × Json)

pub data AnswerError : Type 0 where
  bad_json : AnswerError
  rejected : Str → AnswerError
  non_success : AnswerError
  guard_error : Str → AnswerError
  bad_result missing_mode bad_mode : AnswerError
  bad_resource : AnswerError

-- a text in the field, if it is more than white space
unfoldable pub error_message : Option Json → Option Str
error_message (some (string s)) = if is_nil (trim_space s) then none else some s
error_message other = none

unfoldable pub failure : Option Str → AnswerError
failure none = non_success
failure (some message) = rejected message

unfoldable pub check_flag : Option Json → Option Str → Result AnswerError (Unit {0})
check_flag (some (boolean false)) message = err (failure message)
check_flag other message = ok tt

unfoldable pub check_bool_failure : List (Str × Json) → Str → Result AnswerError (Unit {0})
check_bool_failure raw key =
    check_flag (lookup key raw) (error_message (lookup (bytes "error") raw))

unfoldable pub check_message : Option Str → Result AnswerError (Unit {0})
check_message none = ok tt
check_message (some message) = err (guard_error message)

-- the standard decoding into the struct: names match up to case, other fields are skipped
unfoldable pub decode_payload_fields :
    List (Str × Json) → AgentLabelsPayload → Result PolicyError AgentLabelsPayload
decode_payload_fields [] p = ok p
decode_payload_fields ((key, v) ∷ m) p =
    let name = to_lower key in
    let to_secrecy = (do
      tags ← decode_strings v
      decode_payload_fields m (record p { secrecy = tags })) in
    let to_integrity = (do
      tags ← decode_strings v
      decode_payload_fields m (record p { integrity = tags })) in
    let skip = decode_payload_fields m p in
    if name == bytes "secrecy"
    then to_secrecy
    else if name == bytes "integrity"
    then to_integrity
    else skip

unfoldable pub decode_payload : AgentLabelsPayload → Json → Result PolicyError AgentLabelsPayload
decode_payload old v = do fields ← decode_object v; decode_payload_fields fields old

unfoldable pub decode_result_fields :
    List (Str × Json) → LabelAgentResult → Result PolicyError LabelAgentResult
decode_result_fields [] r = ok r
decode_result_fields ((key, v) ∷ m) r =
    let name = to_lower key in
    let to_agent = (do
      p ← decode_payload r.agent v
      decode_result_fields m (record r { agent = p })) in
    let to_mode = (do
      mode ← decode_string r.difc_mode v
      decode_result_fields m (record r { difc_mode = mode })) in
    let to_policy = (do
      policy ← decode_object v
      decode_result_fields m (record r { normalized_policy = policy })) in
    let skip = decode_result_fields m r in
    if name == bytes "agent"
    then to_agent
    else if name == bytes "difc_mode"
    then to_mode
    else if name == bytes "normalized_policy"
    then to_policy
    else skip

abbrev pub no_result : LabelAgentResult
no_result = record {
  agent = record { secrecy = []; integrity = [] };
  difc_mode = [];
  normalized_policy = [];
}

unfoldable pub or_bad_result {ℓ} : {A : Type ℓ} → Result PolicyError A → Result AnswerError A
or_bad_result (ok a) = ok a
or_bad_result (err e) = err bad_result

unfoldable pub is_known_mode : Str → Bool
is_known_mode mode = elim (parse_enforcement_mode mode).1 [ none ↦ true | some text ↦ false ]

unfoldable pub answered_map : Option Json → Result AnswerError (List (Str × Json))
answered_map (some (object fields)) = ok (entries fields)
answered_map (some null) = ok []
answered_map other = err bad_json

unfoldable pub parse_label_agent_response : Option Json → Result AnswerError LabelAgentResult
parse_label_agent_response answer = do
  raw ← answered_map answer
  check_bool_failure raw (bytes "success")
  check_bool_failure raw (bytes "ok")
  check_message (error_message (lookup (bytes "error") raw))
  result ← or_bad_result (decode_result_fields raw no_result)
  check (not (is_nil (trim_space result.difc_mode))) missing_mode
  check (is_known_mode result.difc_mode) bad_mode
  ok result

-- the strings of the list
abbrev only_strings : List Json → List Tag
only_strings [] = []
only_strings (string s ∷ vs) = s ∷ only_strings vs
only_strings (other ∷ vs) = only_strings vs

unfoldable pub parse_difc_tags_from_any : Option Json → List Tag
parse_difc_tags_from_any (some (array vs)) = only_strings (elements vs)
parse_difc_tags_from_any other = []

-- `fillLabeledResourceFromMap` on the zero value
unfoldable pub fill_labeled_resource_from_map : List (Str × Json) → LabeledResource
fill_labeled_resource_from_map raw = record {
  description = string_or_empty (lookup (bytes "description") raw);
  secrecy = new_secrecy_label (parse_difc_tags_from_any (lookup (bytes "secrecy") raw));
  integrity = new_integrity_label (parse_difc_tags_from_any (lookup (bytes "integrity") raw));
}

-- the default is the most restrictive
unfoldable pub operation_of : Option Json → OperationType
operation_of (some (string s)) =
    if s == bytes "read"
    then OperationType.read
    else if s == bytes "read-write"
    then OperationType.read_write
    else OperationType.write
operation_of other = OperationType.write

unfoldable pub parse_resource : Option Json → OperationType → ResourceOutcome
parse_resource (some (object fields)) operation =
    labeled (fill_labeled_resource_from_map (entries fields)) operation
parse_resource other operation = resource_error (bytes "invalid resource format in guard response")

unfoldable pub parse_resource_response : List (Str × Json) → ResourceOutcome
parse_resource_response raw =
    parse_resource (lookup (bytes "resource") raw) (operation_of (lookup (bytes "operation") raw))

unfoldable pub item_labels : Option Json → Option LabeledResource
item_labels (some (object fields)) = some (fill_labeled_resource_from_map (entries fields))
item_labels other = none

abbrev or_null : Option Json → Json
or_null none = null
or_null (some v) = v

-- the loop of `parseCollectionLabeledData`
unfoldable pub parse_items : List Json → List (LabeledItem Json)
parse_items [] = []
parse_items (object fields ∷ vs) =
    record {
      content = or_null (lookup (bytes "data") (entries fields));
      labels = item_labels (lookup (bytes "labels") (entries fields));
    }
    ∷ parse_items vs
parse_items (other ∷ vs) = parse_items vs

unfoldable pub parse_collection_labeled_data : List Json → CollectionLabeledData Json
parse_collection_labeled_data vs = record { items = parse_items vs }
