-- ===== src/Adapter/Forms.antt =====
-- What the user is asked: `project` of crates/codex-adapter/src/interactions.rs.
use package.text.Mathlib.Text.{◌==◌ as str_eq}
use remote_codex.Base.{
  String, Bool, true, false, not, ◌&&◌, ◌||◌, Option, none, some, List, [], ◌∷◌, if◌then◌else◌, any,
}
use remote_codex.Config.Text.{text}
use remote_codex.Json.{
  Value, boolean, string, array, object, Items, nil, cons, Fields, end, field, at, as_str, is_text,
}

pub record InputField : Type 0 where
  pub id : String
  pub label : String
  pub description : String
  pub kind : String
  pub required : Bool
  pub choices : List String
  pub secret : Bool

pub data Interaction : Type 0 where
  questions : (fields : List InputField) → Interaction
  mcp_form : (server message : String) (fields : List InputField) → Interaction
  mcp_url : (server message url : String) → Interaction
  unsupported : (message : String) → Interaction

abbrev or_text : String → Option String → String
or_text other none = other
or_text other (some s) = s

-- `text`
abbrev pub text_at : Value → String → String
text_at value key = or_text "" (as_str (at value key))

-- The texts of an array, and the texts at one name of its objects.
abbrev texts : Items → List String
texts nil = []
texts (cons (string s) rest) = s ∷ texts rest
texts (cons _ rest) = texts rest

abbrev add_text : Option String → List String → List String
add_text none rest = rest
add_text (some s) rest = s ∷ rest

abbrev texts_at : String → Items → List String
texts_at name nil = []
texts_at name (cons v rest) = add_text (as_str (at v name)) (texts_at name rest)

abbrev pub items_of : Value → Items
items_of (array items) = items
items_of _ = nil

abbrev is_array : Value → Bool
is_array (array items) = true
is_array _ = false

abbrev is_true : Value → Bool
is_true (boolean b) = b
is_true _ = false

abbrev choices_in : Value → List String
choices_in value =
    if is_array (at value "enum")
    then texts (items_of (at value "enum"))
    else if is_array (at value "oneOf")
    then texts_at "const" (items_of (at value "oneOf"))
    else texts_at "const" (items_of (at value "anyOf"))

unfoldable pub choices : Value → List String
choices value = choices_in (if is_text (at value "type") "array" then at value "items" else value)

abbrev question : Value → InputField
question q = record {
  id = text_at q "id";
  label = text_at q "question";
  description = text_at q "header";
  kind = "string";
  required = true;
  secret = is_true (at q "isSecret");
  choices = texts_at "label" (items_of (at q "options"));
}

abbrev question_fields : Items → List InputField
question_fields nil = []
question_fields (cons q rest) = question q ∷ question_fields rest

abbrev known_kind : String → Bool
known_kind kind = any (str_eq kind) ("string" ∷ "boolean" ∷ "number" ∷ "integer" ∷ "array" ∷ [])

abbrev contains_text : String → Items → Bool
contains_text s nil = false
contains_text s (cons v rest) = is_text v s || contains_text s rest

abbrev pub is_none_left : List String → Bool
is_none_left [] = true
is_none_left _ = false

abbrev form_field : Value → String → Value → InputField
form_field schema id value = record {
  id = id;
  label = or_text id (as_str (at value "title"));
  description = text_at value "description";
  kind = text_at value "type";
  secret = false;
  required = contains_text id (items_of (at schema "required"));
  choices = choices value;
}

abbrev and_more : InputField → Option (List InputField) → Option (List InputField)
and_more f none = none
and_more f (some rest) = some (f ∷ rest)

-- The fields of a form, where each can be shown.
unfoldable pub form_fields : Value → Fields → Option (List InputField)
unfolding choices
form_fields schema end = some []
form_fields schema (field id value properties) =
    let rest = form_fields schema properties in
    if not (known_kind (text_at value "type"))
      || (str_eq (text_at value "type") "array" && is_none_left (choices value))
    then none
    else and_more (form_field schema id value) rest

abbrev not_supported : Interaction
not_supported =
    unsupported "This native interaction is not supported yet. Cancel it to continue safely."

abbrev shown : Value → Option (List InputField) → Interaction
shown params none = not_supported
shown params (some fields) =
    mcp_form (text_at params "serverName") (text_at params "message") fields

unfoldable pub form : Value → Value → Interaction
unfolding form_fields
form params (object properties) =
    shown params (form_fields (at params "requestedSchema") properties)
form params _ = not_supported

unfoldable pub elicitation : Value → Interaction
unfolding form
elicitation params =
    if is_text (at params "mode") "url"
    then mcp_url (text_at params "serverName") (text_at params "message") (text_at params "url")
    else if is_text (at params "mode") "form"
    then form params (at (at params "requestedSchema") "properties")
    else not_supported

unfoldable pub project : Value → Interaction
unfolding elicitation
project event =
    if is_text (at event "method") "item/tool/requestUserInput"
    then questions (question_fields (items_of (at (at event "params") "questions")))
    else if is_text (at event "method") "mcpServer/elicitation/request"
    then elicitation (at event "params")
    else not_supported
