-- ===== src/Queue/Events.antt =====
-- RunEvent of domain/runs.py, without its attributes, and the rows of `run_events`. The redaction
-- of messages and attributes by SqliteRunEventWriter is left out. The newest row comes first.
use pangi.Prelude.{
  ℕ, max, String, Bool, true, false, ◌&&◌, ◌||◌, not, List, [], ◌∷◌, Option, ltb, ◌==◌, str_eq,
  if◌then◌else◌,
}
use pangi.Prelude.Results.{Result, ok, ◌>>=◌, ◌>>◌, raise_if}
use pangi.Text.{DateTime, codes, is_lower, is_digit}
use pangi.Runs.Contracts.{
  RunError, contract, validate_identifier, validate_bounded_text, when_present, utc,
}

pub data EventVisibility : Type 0 where
  public admin internal : EventVisibility

pub record RunEvent : Type 0 where
  pub run_id : String
  pub index : ℕ
  pub type : String
  pub visibility : EventVisibility
  pub created_at : DateTime
  pub step_id : Option String
  pub message : Option String

abbrev pub is_word : ℕ → Bool
is_word c = is_lower c || is_digit c || c == b'_'

-- What may follow in ^[a-z][a-z0-9_]*(?:\.[a-z][a-z0-9_]*)+$, at the start of a segment or in it,
-- before or after the first dot.
unfoldable pub segments_ok : Bool → Bool → List ℕ → Bool
segments_ok at_start dotted [] = not at_start && dotted
segments_ok true dotted (c ∷ rest) = is_lower c && segments_ok false dotted rest
segments_ok false dotted (c ∷ rest) =
    let new_segment = segments_ok true true rest in
    let same_segment = segments_ok false dotted rest in
    if c == b'.' then new_segment else is_word c && same_segment

-- The pattern of an event type.
unfoldable pub event_type_ok : String → Bool
unfolding segments_ok
event_type_ok value = segments_ok true false (codes value)

unfoldable pub event_init : RunEvent → Result RunError RunEvent
event_init e = do
  validate_identifier e.run_id "run id"
  when_present e.step_id (λ v. validate_identifier v "step id")
  raise_if (ltb e.index 1) (contract "event index")
  raise_if (not (event_type_ok e.type)) (contract "event type")
  when_present e.message (λ v. validate_bounded_text v "event message" 2_000)
  created_at ← utc "created_at" e.created_at
  ok (record e { created_at = created_at })

-- COALESCE(MAX(event_index), 0) of the events of a Run
unfoldable pub max_index : String → List RunEvent → ℕ
max_index run_id [] = 0
max_index run_id (e ∷ rest) =
    let later = max_index run_id rest in if str_eq run_id e.run_id then max e.index later else later
