-- ===== src/Codec/Json.antt =====
-- JSON values as `json.loads` makes them, and the readers of
-- application/contracts/orchestration_execution.py: _mapping, _exact_keys, _string, _string_tuple.
use pangi.Prelude.{
  String, Bool, ◌&&◌, not, List, [], ◌∷◌, Option, none, some, str_eq, if◌then◌else◌,
}
use pangi.Prelude.Int.{ℤ}
use pangi.Prelude.Results.{Result, ok, err, ◌>>=◌, raise_if}
use pangi.Prelude.Sets.{subset}
use pangi.Orchestration.Contracts.{ValueError, invalid}
use pangi.Orchestration.Facts.{
  Json, null, boolean, integer, text, array, object, Items, no_item, item, Fields, no_field, field,
}

pub data DataError : Type 0 where
  value_error : ValueError → DataError
  key_error : String → DataError

abbrev pub bad {ℓ} : {A : Type ℓ} → String → Result DataError A
bad what = err (value_error (invalid what))

-- A call of a constructor that may raise a ValueError
abbrev pub built {ℓ} : {A : Type ℓ} → Result ValueError A → Result DataError A
built (ok a) = ok a
built (err e) = err (value_error e)

abbrev pub keys : Fields → List String
keys no_field = []
keys (field k v rest) = k ∷ keys rest

-- value[key]
unfoldable pub get : Fields → String → Result DataError Json
get no_field key = err (key_error key)
get (field k v rest) key = let later = get rest key in if str_eq k key then ok v else later

-- `_mapping`
abbrev pub mapping : Json → String → Result DataError Fields
mapping (object fields) field_name = ok fields
mapping _ field_name = bad field_name

-- `_exact_keys`
unfoldable pub exact_keys : Fields → List String → String → Result DataError (Unit {0})
exact_keys fields expected field_name =
    raise_if (not (subset (keys fields) expected && subset expected (keys fields)))
      (value_error (invalid field_name))

abbrev pub as_text : Json → String → Result DataError String
as_text (text s) what = ok s
as_text _ what = bad what

-- `_string`
unfoldable pub string : Fields → String → Result DataError String
string fields key = do value ← get fields key; as_text value key

-- A list of strings; none for another value in it.
unfoldable pub texts : Items → Option (List String)
texts no_item = some []
texts (item (text s) rest) = elim (texts rest) [ none ↦ none | some ss ↦ some (s ∷ ss) ]
texts (item _ rest) = none

unfoldable pub as_texts : Json → String → Result DataError (List String)
as_texts (array items) what = elim (texts items) [ none ↦ bad what | some ss ↦ ok ss ]
as_texts _ what = bad what

-- `_string_tuple`
unfoldable pub string_tuple : Fields → String → Result DataError (List String)
string_tuple fields key = do value ← get fields key; as_texts value key

-- None or a string
abbrev pub as_optional_text : Json → String → Result DataError (Option String)
as_optional_text null what = ok none
as_optional_text (text s) what = ok (some s)
as_optional_text _ what = bad what

abbrev pub as_items : Json → String → Result DataError Items
as_items (array items) what = ok items
as_items _ what = bad what

abbrev pub as_boolean : Json → String → Result DataError Bool
as_boolean (boolean b) what = ok b
as_boolean _ what = bad what

abbrev pub as_integer : Json → String → Result DataError ℤ
as_integer (integer n) what = ok n
as_integer _ what = bad what

-- `tuple(read(item) for item in items)`
unfoldable pub read_all :
    {A : Type 0} → (Json → Result DataError A) → Items → Result DataError (List A)
read_all read no_item = ok []
read_all read (item v rest) = do a ← read v; more ← read_all read rest; ok (a ∷ more)

-- `[write(a) for a in values]`
abbrev pub write_all : {A : Type 0} → (A → Json) → List A → Items
write_all write [] = no_item
write_all write (a ∷ rest) = item (write a) (write_all write rest)

abbrev pub optional_text : Option String → Json
optional_text none = null
optional_text (some s) = text s
