-- ===== src/Adapter/Interactions/Answers.antt =====
-- What the answer to a form holds: `answer` of crates/codex-adapter/src/interactions.rs.
use package.text.Mathlib.Text.{◌==◌ as str_eq}
use remote_codex.Base.{String, ◌≡◌, ◌⊎◌, true, some, List, [], ◌∷◌}
use remote_codex.Json.{Value, object, Fields, find, at}
use remote_codex.Adapter.Forms.{InputField}
use remote_codex.Adapter.Interactions.Allowed.{Allowed}
use remote_codex.Adapter.Interactions.{accept, Reader, response, form_result}
use remote_codex.Adapter.Interactions.Filled.{all_there}

-- One of the fields has this name, and allows the value.
abbrev pub AsField : Reader → Value → String → Value → List InputField → Type 0
AsField reader properties name value [] = ⊥
AsField reader properties name value (f ∷ fields) =
    ((f.id ≡ name) × Allowed reader (at properties name) f value)
    ⊎ AsField reader properties name value fields

-- The answer names the request; each value of its content is one that a field of this name allows;
-- and each required field has a value.
pub record Answered (reader : Reader) (event : Value) (fields : List InputField) (v : Value)
    : Type 0 where
  pub content : Fields
  pub is_answer : v ≡ response event (form_result accept (object content))
  pub allows :
      (name : String) (value : Value)
      → find name content ≡ some value
      → AsField reader
          (at (at (at event "params") "requestedSchema") "properties")
          name
          value
          fields
  pub complete : all_there content fields ≡ true
