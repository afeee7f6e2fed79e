-- ===== src/Codec/ResultRoundTrip.antt =====
-- A result that is written is read back.
use pangi.Prelude.{List, [], ◌∷◌, ◌≡◌, refl, All, some, String}
use pangi.Prelude.Results.{ok}
use pangi.Prelude.Sets.{subset, contains}
use pangi.Orchestration.Facts.{array, object, Fields}
use pangi.Orchestration.Contracts.{
  EvidenceSourceType, mcp, memory, user_input, computed, AgentResultStatus, succeeded, partial,
  failed, Evidence, evidence_init, AgentResult, agent_result_init,
}
use pangi.Codec.Json.{get, exact_keys, string, write_all}
use pangi.Codec.Plans.{check_version}
use pangi.Codec.Results.{
  source_value, source_of, status_value, status_of, evidence_data, result_data, evidence_from_data,
  objects, as_objects, result_from_data,
}
use pangi.Codec.RoundTrip.{as_texts-write, as_optional_text-write, read_all-write_all}

source_of-value : (t : EvidenceSourceType) → source_of (source_value t) ≡ ok t
source_of-value mcp = refl
source_of-value memory = refl
source_of-value user_input = refl
source_of-value computed = refl

status_of-value : (s : AgentResultStatus) → status_of (status_value s) ≡ ok s
status_of-value succeeded = refl
status_of-value partial = refl
status_of-value failed = refl

objects-write_all : (fs : List Fields) → objects (write_all object fs) ≡ some fs
unfolding objects
objects-write_all [] = refl
objects-write_all (f ∷ fs) = rw (objects-write_all fs) refl

as_objects-write :
    (fs : List Fields) (what : String) → as_objects (array (write_all object fs)) what ≡ ok fs
unfolding as_objects
as_objects-write fs what = rw (as_objects, objects-write_all fs) refl

evidence_from_data-evidence_data :
    (e : Evidence) → evidence_init e ≡ ok e → evidence_from_data (evidence_data e) ≡ ok e
unfolding evidence_from_data evidence_data exact_keys subset contains get string
evidence_from_data-evidence_data e h =
    rw
      (
        as_optional_text-write e.uri "uri",
        as_optional_text-write e.excerpt "excerpt",
        source_of-value e.source_type,
        h,
      )
      refl

evidence_back :
    (es : List Evidence)
    → All (λ e. evidence_init e ≡ ok e) es
    → All (λ e. evidence_from_data (evidence_data e) ≡ ok e) es
evidence_back [] h = tt
evidence_back (e ∷ es) h = (evidence_from_data-evidence_data e h.0, evidence_back es h.1)

-- A result that its constructors accept is read back from its encoding, its facts included.
pub result_from_data-result_data :
    (r : AgentResult)
    → agent_result_init r ≡ ok r
    → All (λ e. evidence_init e ≡ ok e) r.evidence
    → result_from_data (result_data r) ≡ ok r
unfolding result_from_data check_version result_data exact_keys subset contains get string
result_from_data-result_data r h es =
    rw
      (
        as_objects-write r.facts "facts",
        as_texts-write r.warnings "warnings",
        as_optional_text-write r.error_code "error_code",
        status_of-value r.status,
        read_all-write_all evidence_data evidence_from_data r.evidence
            (evidence_back r.evidence es),
        h,
      )
      refl
