-- ===== src/Json.antt =====
-- JSON values as serde_json has them, and how the code looks into them. A number is kept as a text:
-- no code modelled here computes with one but an exit code, which it reads.
pub mod Puts
use text.Mathlib.Text.{◌==◌ as str_eq}
use remote_codex.Base.{
  ℕ, String, Bool, true, false, not, ◌&&◌, Option, none, some, List, [], ◌∷◌, if◌then◌else◌,
}

mutual
  pub data Value : Type 0 where
    null : Value
    boolean : Bool → Value
    number : (text : String) → Value
    string : String → Value
    array : Items → Value
    object : Fields → Value

  pub data Items : Type 0 where
    nil : Items
    cons : Value → Items → Items

  pub data Fields : Type 0 where
    end : Fields
    field : (name : String) → Value → Fields → Fields

abbrev pub find : String → Fields → Option Value
find name end = none
find name (field other v rest) = if str_eq other name then some v else find name rest

-- `get`
abbrev pub get : Value → String → Option Value
get (object fields) name = find name fields
get _ name = none

abbrev pub or_null : Option Value → Value
or_null none = null
or_null (some v) = v

-- `value["name"]`
abbrev pub at : Value → String → Value
at v name = or_null (get v name)

abbrev pub as_str : Value → Option String
as_str (string s) = some s
as_str _ = none

abbrev pub is_null : Value → Bool
is_null null = true
is_null _ = false

abbrev pub is_text : Value → String → Bool
is_text (string s) t = str_eq s t
is_text _ t = false

-- `value == json!(texts)`
abbrev items_are : Items → List String → Bool
items_are nil [] = true
items_are (cons v items) (t ∷ texts) = is_text v t && items_are items texts
items_are _ _ = false

abbrev pub is_texts : Value → List String → Bool
is_texts (array items) texts = items_are items texts
is_texts _ texts = false

abbrev pub put : String → Value → Fields → Fields
put name v end = field name v end
put name v (field other w rest) =
    if str_eq other name then field name v rest else field other w (put name v rest)

-- `value["name"] = v`, where the code has an object.
abbrev pub with_field : Value → String → Value → Value
with_field (object fields) name v = object (put name v fields)
with_field w name v = w
