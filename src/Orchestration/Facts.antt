-- ===== src/Orchestration/Facts.antt =====
-- JSON values, and the checks of application/contracts/orchestration.py on the facts of a result.
use pangi.Prelude.{ℕ, suc, String, Bool, true, false, ◌&&◌, leb}
use pangi.Prelude.Int.{ℤ}
use pangi.Text.{len}

-- A finite `float` is kept as its text. An object's keys are distinct.
mutual
  pub data Json : Type 0 where
    null : Json
    boolean : Bool → Json
    integer : ℤ → Json
    real : String → Json
    not_finite : Json
    text : String → Json
    array : Items → Json
    object : Fields → Json

  pub data Items : Type 0 where
    no_item : Items
    item : Json → Items → Items

  pub data Fields : Type 0 where
    no_field : Fields
    field : String → Json → Fields → Fields

abbrev pub count_items : Items → ℕ
count_items no_item = 0
count_items (item v rest) = suc (count_items rest)

abbrev pub count_fields : Fields → ℕ
count_fields no_field = 0
count_fields (field k v rest) = suc (count_fields rest)

abbrev key_ok : String → Bool
key_ok key = leb 1 (len key) && leb (len key) 120

-- `_freeze_json_value`: false where it raises.
unfoldable mutual
  pub value_ok : Json → Bool
  value_ok null = true
  value_ok (boolean b) = true
  value_ok (integer n) = true
  value_ok (real r) = true
  value_ok not_finite = false
  value_ok (text s) = leb (len s) 100_000
  value_ok (array items) = leb (count_items items) 1_000 && items_ok items
  value_ok (object fields) = leb (count_fields fields) 100 && fields_ok fields

  pub items_ok : Items → Bool
  items_ok no_item = true
  items_ok (item v rest) = value_ok v && items_ok rest

  pub fields_ok : Fields → Bool
  fields_ok no_field = true
  fields_ok (field k v rest) = key_ok k && value_ok v && fields_ok rest
