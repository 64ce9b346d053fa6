-- ===== src/Adapter/Interactions.antt =====
-- crates/codex-adapter/src/interactions.rs: the answer of the user that goes back to Codex. The
-- parser of JSON and the readers of numbers are arguments; a floating-point number is carried as
-- the ℕ of its 64 bits.
pub mod Allowed
pub mod Filled
pub mod Answers
use package.text.Mathlib.Text.{◌==◌ as str_eq}
use remote_codex.Base.{
  ℕ, String, Bool, true, false, not, ◌&&◌, ◌||◌, Option, none, some, List, [], ◌∷◌, Result, ok, err,
  if◌then◌else◌, any, all, leb, length, is_some, ◌+◌,
}
use remote_codex.Config.Text.{text}
use remote_codex.Session.Errors.{Fault}
use remote_codex.Json.{
  Value, null, boolean, number, string, array, object, Items, nil, cons, Fields, end, field, find,
  put, get, at, or_null, as_str, is_text,
}
use remote_codex.Server.{refusal}
use remote_codex.Adapter.Forms.{
  InputField, Interaction, text_at, items_of, choices, is_none_left, form_fields, form, elicitation,
  project, questions, mcp_form, mcp_url, unsupported,
}

pub data InteractionDecision : Type 0 where
  accept decline cancel : InteractionDecision

pub record InteractionAnswer : Type 0 where
  pub action : InteractionDecision
  pub values : List (String × String)

-- What stands outside: `serde_json::from_str`, `as_u64`, `as_f64`, `>=` on floating-point numbers
-- and whether one is whole.
pub record Reader : Type 0 where
  pub from_str : String → Option Value
  pub as_u64 : String → Option ℕ
  pub as_f64 : String → Option ℕ
  pub at_least : ℕ → ℕ → Bool
  pub is_whole : ℕ → Bool

abbrev pub invalid : Fault
invalid = refusal "INVALID_INTERACTION_RESPONSE" "Complete the requested fields with valid values."

abbrev is_accept : InteractionDecision → Bool
is_accept accept = true
is_accept _ = false

abbrev action_text : InteractionDecision → String
action_text accept = "accept"
action_text decline = "decline"
action_text cancel = "cancel"

abbrev value_of : String → List (String × String) → Option String
value_of id [] = none
value_of id ((name, v) ∷ rest) = if str_eq name id then some v else value_of id rest

-- A bound that the schema gives, where it gives one.
abbrev bounded : Option ℕ → (ℕ → Bool) → Bool
bounded none fits = true
bounded (some bound) fits = fits bound

abbrev count : Items → ℕ
count nil = 0
count (cons v rest) = let more = count rest in more + 1

abbrev among : List String → Value → Bool
among choices v = any (is_text v) choices

abbrev all_among : List String → Items → Bool
all_among choices nil = true
all_among choices (cons v rest) = among choices v && all_among choices rest

abbrev filled : Option String → Option String
filled none = none
filled (some v) = if str_eq v "" then none else some v

abbrev one_answer : Value → Value
one_answer values = object (field "answers" values end)

-- The answers to questions.
unfoldable pub answers :
    InteractionDecision → List (String × String) → List InputField → Fields → Result Fault Fields
answers action values [] given = ok given
answers action values (f ∷ fields) given = elim (is_accept action) [
  | false ↦ answers action values fields (put f.id (one_answer (array nil)) given)
  | true ↦ elim (value_of f.id values) [
    | none ↦ err invalid
    | some v ↦
        answers action values fields (put f.id (one_answer (array (cons (string v) nil))) given)
  ]
]

abbrev pub response : Value → Value → Value
response event result = object (field "id" (at event "id") (field "result" result end))

abbrev refused : Value → Value
refused event = object (
    field "id" (at event "id") (
      field "error"
        (object (
          field "code" (number "-32601") (
            field "message" (string "This interaction is not supported by Remote Codex Desktop.")
              end)))
        end))

abbrev pub form_result : InteractionDecision → Value → Value
form_result action content =
    object (field "action" (string (action_text action)) (field "content" content end))

abbrev with_answers : Value → Result Fault Fields → Result Fault Value
with_answers event (err e) = err e
with_answers event (ok given) = ok (response event (one_answer (object given)))

abbrev with_content : Value → Result Fault Fields → Result Fault Value
with_content event (err e) = err e
with_content event (ok content) = ok (response event (form_result accept (object content)))

module _ (reader : Reader) where
  open reader use {from_str, as_u64, as_f64, at_least, is_whole}

  abbrev number_by : (String → Option ℕ) → Value → Option ℕ
  number_by read (number s) = read s
  number_by read _ = none

  abbrev string_fits : Value → Value → InputField → Bool
  string_fits (string v) schema f =
      bounded (number_by as_u64 (at schema "minLength")) (λ min. leb min (length (text v)))
      && (bounded (number_by as_u64 (at schema "maxLength")) (λ max. leb (length (text v)) max)
          && (is_none_left f.choices || any (str_eq v) f.choices))
  string_fits _ schema f = false

  abbrev number_fits : Option ℕ → Value → InputField → Bool
  number_fits none schema f = false
  number_fits (some v) schema f =
      (not (str_eq f.kind "integer") || is_whole v)
      && (bounded (number_by as_f64 (at schema "minimum")) (λ min. at_least v min)
          && bounded (number_by as_f64 (at schema "maximum")) (λ max. at_least max v))

  abbrev array_fits : Value → Value → InputField → Bool
  array_fits (array items) schema f =
      all_among f.choices items
      && (bounded (number_by as_u64 (at schema "minItems")) (λ min. leb min (count items))
          && bounded (number_by as_u64 (at schema "maxItems")) (λ max. leb (count items) max))
  array_fits _ schema f = false

  abbrev is_boolean : Value → Bool
  is_boolean (boolean b) = true
  is_boolean _ = false

  -- The test of `validate`.
  unfoldable pub is_valid : Value → Value → InputField → Bool
  is_valid value schema f =
      if str_eq f.kind "string"
      then string_fits value schema f
      else if str_eq f.kind "boolean"
      then is_boolean value
      else if str_eq f.kind "number" || str_eq f.kind "integer"
      then number_fits (number_by as_f64 value) schema f
      else if str_eq f.kind "array"
      then array_fits value schema f
      else false

  abbrev parsed : InputField → String → Option Value
  parsed f v = if str_eq f.kind "string" then some (string v) else from_str v

  abbrev kept : Value → InputField → Option Value → Option Value
  kept properties f none = none
  kept properties f (some v) = if is_valid v (at properties f.id) f then some v else none

  -- The contents of an accepted form, one field after the other.
  unfoldable pub fill :
      (properties : Value) → List (String × String) → List InputField → Fields → Result Fault Fields
  fill properties values [] content = ok content
  fill properties values (f ∷ fields) content = elim (filled (value_of f.id values)) [
    | none ↦ if f.required then err invalid else fill properties values fields content
    | some v ↦ elim (kept properties f (parsed f v)) [
      | none ↦ err invalid
      | some value ↦ fill properties values fields (put f.id value content)
    ]
  ]

  unfoldable pub answer_to :
      Value → InteractionDecision → List (String × String) → Interaction → Result Fault Value
  unfolding fill answers
  answer_to event action values (questions fields) =
      with_answers event (answers action values fields end)
  answer_to event accept values (mcp_form server message fields) =
      with_content event
        (fill (at (at (at event "params") "requestedSchema") "properties") values fields end)
  answer_to event action values (mcp_form server message fields) =
      ok (response event (form_result action null))
  answer_to event action values (mcp_url server message url) =
      ok (response event (object (field "action" (string (action_text action)) end)))
  answer_to event accept values (unsupported message) = err invalid
  answer_to event action values (unsupported message) = ok (refused event)

  unfoldable pub answer : Value → InteractionAnswer → Result Fault Value
  unfolding answer_to project
  answer event a = answer_to event a.action a.values (project event)
