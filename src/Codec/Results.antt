-- ===== src/Codec/Results.antt =====
-- agent_result_data, agent_result_from_data and the encoding of evidence.
use pangi.Prelude.{String, List, [], ◌∷◌, Option, none, some, str_eq, if◌then◌else◌}
use pangi.Prelude.Results.{Result, ok, ◌>>=◌, ◌>>◌}
use pangi.Orchestration.Facts.{
  Json, text, array, object, Items, no_item, item, Fields, no_field, field,
}
use pangi.Orchestration.Contracts.{
  EvidenceSourceType, mcp, memory, user_input, computed, AgentResultStatus, succeeded, partial,
  failed, Evidence, evidence_init, AgentResult, agent_result_init,
}
use pangi.Codec.Json.{
  DataError, bad, built, get, mapping, exact_keys, string, as_texts, as_optional_text, as_items,
  read_all, write_all, optional_text,
}
use pangi.Codec.Plans.{check_version}

-- EXECUTION_RESULT_SCHEMA_VERSION
abbrev pub result_schema_version : String
result_schema_version = "agent-result-v1"

abbrev pub source_value : EvidenceSourceType → String
source_value mcp = "mcp"
source_value memory = "memory"
source_value user_input = "user_input"
source_value computed = "computed"

abbrev pub source_of : String → Result DataError EvidenceSourceType
source_of s =
    if str_eq s "mcp"
    then ok mcp
    else if str_eq s "memory"
    then ok memory
    else if str_eq s "user_input"
    then ok user_input
    else if str_eq s "computed"
    then ok computed
    else bad "EvidenceSourceType"

abbrev pub status_value : AgentResultStatus → String
status_value succeeded = "succeeded"
status_value partial = "partial"
status_value failed = "failed"

abbrev pub status_of : String → Result DataError AgentResultStatus
status_of s =
    if str_eq s "succeeded"
    then ok succeeded
    else if str_eq s "partial"
    then ok partial
    else if str_eq s "failed"
    then ok failed
    else bad "AgentResultStatus"

unfoldable pub evidence_data : Evidence → Json
evidence_data e = object (
    field "excerpt" (optional_text e.excerpt) (
      field "source_name" (text e.source_name) (
        field "source_type" (text (source_value e.source_type))
          (field "title" (text e.title) (field "uri" (optional_text e.uri) no_field)))))

-- `agent_result_data`
unfoldable pub result_data : AgentResult → Json
result_data r = object (
    field "error_code" (optional_text r.error_code) (
      field "evidence" (array (write_all evidence_data r.evidence)) (
        field "facts" (array (write_all object r.facts)) (
          field "schema_version" (text result_schema_version) (
            field "status" (text (status_value r.status)) (
              field "summary_markdown" (text r.summary_markdown) (
                field "task_id" (text r.task_id)
                  (field "warnings" (array (write_all text r.warnings)) no_field))))))))

-- `_evidence`
unfoldable pub evidence_from_data : Json → Result DataError Evidence
evidence_from_data value = do
  data' ← mapping value "Evidence"
  exact_keys data' ("excerpt" ∷ "source_name" ∷ "source_type" ∷ "title" ∷ "uri" ∷ []) "Evidence"
  uri_value ← get data' "uri"
  excerpt_value ← get data' "excerpt"
  uri ← as_optional_text uri_value "uri"
  excerpt ← as_optional_text excerpt_value "excerpt"
  source_text ← string data' "source_type"
  source_type ← source_of source_text
  source_name ← string data' "source_name"
  title ← string data' "title"
  built (
      evidence_init (record {
        source_type = source_type;
        source_name = source_name;
        title = title;
        uri = uri;
        excerpt = excerpt;
      }))

-- A list of objects; none for another value in it.
unfoldable pub objects : Items → Option (List Fields)
objects no_item = some []
objects (item (object fs) rest) = elim (objects rest) [ none ↦ none | some os ↦ some (fs ∷ os) ]
objects (item _ rest) = none

unfoldable pub as_objects : Json → String → Result DataError (List Fields)
as_objects (array items) what = elim (objects items) [ none ↦ bad what | some os ↦ ok os ]
as_objects _ what = bad what

abbrev result_keys : List String
result_keys =
    "error_code" ∷ "evidence" ∷ "facts" ∷ "schema_version" ∷ "status" ∷ "summary_markdown"
    ∷ "task_id" ∷ "warnings" ∷ []

-- `agent_result_from_data`
unfoldable pub result_from_data : Json → Result DataError AgentResult
result_from_data value = do
  data' ← mapping value "AgentResult"
  exact_keys data' result_keys "AgentResult"
  version ← get data' "schema_version"
  check_version result_schema_version version
  evidence_value ← get data' "evidence"
  facts_value ← get data' "facts"
  warnings_value ← get data' "warnings"
  error_value ← get data' "error_code"
  evidence_items ← as_items evidence_value "evidence"
  facts ← as_objects facts_value "facts"
  warnings ← as_texts warnings_value "warnings"
  error_code ← as_optional_text error_value "error_code"
  task_id ← string data' "task_id"
  status_text ← string data' "status"
  status ← status_of status_text
  summary_markdown ← string data' "summary_markdown"
  evidence ← read_all evidence_from_data evidence_items
  built (
      agent_result_init (record {
        task_id = task_id;
        status = status;
        summary_markdown = summary_markdown;
        evidence = evidence;
        facts = facts;
        warnings = warnings;
        error_code = error_code;
      }))
