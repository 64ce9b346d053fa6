-- ===== src/Adapter/Interactions/Allowed.antt =====
-- What `validate` of crates/codex-adapter/src/interactions.rs asks of a value of a form, kind by kind.
use package.text.Mathlib.Text.{◌==◌ as str_eq}
use remote_codex.Base.{
  ℕ, String, ◌≡◌, ◌≤◌, refl, sym, ap, ◌∙◌, ◌⊎◌, inl, inr, Bool, true, false, not, ◌&&◌, ◌||◌,
  Option, none, some, List, [], ◌∷◌, if◌then◌else◌, leb, length, any, arith,
}
use remote_codex.Config.Text.{text}
use remote_codex.Json.{Value, null, boolean, number, string, array, object, Items, nil, cons, at}
use remote_codex.Adapter.Forms.{InputField, is_none_left}
use remote_codex.Adapter.Interactions.{
  Reader, bounded, count, all_among, number_by, string_fits, number_fits, array_fits, is_boolean,
  is_valid,
}

-- Each item is one of the choices.
abbrev pub Chosen : List String → Items → Type 0
Chosen choices nil = Unit {0}
Chosen choices (cons v rest) =
    ((s : String) × (v ≡ string s) × (any (str_eq s) choices ≡ true)) × Chosen choices rest

module _ (reader : Reader) where
  -- The schema gives this natural number, or this number, under the name.
  abbrev pub Limits : Value → String → ℕ → Type 0
  Limits schema name n = number_by reader reader.as_u64 (at schema name) ≡ some n

  abbrev pub Ranges : Value → String → ℕ → Type 0
  Ranges schema name n = number_by reader reader.as_f64 (at schema name) ≡ some n

  pub data Allowed (schema : Value) (f : InputField) : Value → Type 0 where
    -- a text that is neither too short nor too long, and a choice where there are any
    a_text :
        (s : String)
        → str_eq f.kind "string" ≡ true
        → ((n : ℕ) → Limits schema "minLength" n → n ≤ length (text s))
        → ((n : ℕ) → Limits schema "maxLength" n → length (text s) ≤ n)
        → (f.choices ≡ []) ⊎ (any (str_eq s) f.choices ≡ true)
        → Allowed schema f (string s)
    a_boolean : (b : Bool) → str_eq f.kind "boolean" ≡ true → Allowed schema f (boolean b)
    -- a number that is whole where an integer is asked for, and neither too small nor too large
    a_number :
        (s : String) (v : ℕ)
        → (str_eq f.kind "number" || str_eq f.kind "integer") ≡ true
        → reader.as_f64 s ≡ some v
        → (str_eq f.kind "integer" ≡ true → reader.is_whole v ≡ true)
        → ((n : ℕ) → Ranges schema "minimum" n → reader.at_least v n ≡ true)
        → ((n : ℕ) → Ranges schema "maximum" n → reader.at_least n v ≡ true)
        → Allowed schema f (number s)
    -- choices, neither too few nor too many
    a_list :
        (items : Items)
        → str_eq f.kind "array" ≡ true
        → Chosen f.choices items
        → ((n : ℕ) → Limits schema "minItems" n → n ≤ count items)
        → ((n : ℕ) → Limits schema "maxItems" n → count items ≤ n)
        → Allowed schema f (array items)

  within :
      (o : Option ℕ) (fits : ℕ → Bool)
      → bounded o fits ≡ true
      → (n : ℕ) → o ≡ some n
      → fits n ≡ true
  within none fits e n same = absurd (cc)
  within (some m) fits e n same =
      ap fits (sym (ap (λ x. elim x [ none ↦ m | some y ↦ y ]) same)) ∙ e

  first : (a b : Bool) → (a && b) ≡ true → a ≡ true
  first a b h = ground arith

  second : (a b : Bool) → (a && b) ≡ true → b ≡ true
  second a b h = ground arith

  low : (a b : ℕ) → leb a b ≡ true → a ≤ b
  low a b e = ground arith

  nothing_left : (choices : List String) → is_none_left choices ≡ true → choices ≡ []
  nothing_left [] e = refl
  nothing_left (c ∷ rest) e = absurd (cc)

  one_choice :
      (choices : List String) (s : String)
      → (is_none_left choices || any (str_eq s) choices) ≡ true
      → (choices ≡ []) ⊎ (any (str_eq s) choices ≡ true)
  one_choice choices s e = by_empty (is_none_left choices) refl e
    where
      by_empty :
          (b : Bool)
          → is_none_left choices ≡ b
          → (b || any (str_eq s) choices) ≡ true
          → (choices ≡ []) ⊎ (any (str_eq s) choices ≡ true)
      by_empty true is e = inl (nothing_left choices is)
      by_empty false other e = inr e

  not_among : (choices : List String) (b : Bool) → any (λ c. false) choices ≡ true → ⊥
  not_among [] b e = absurd (cc)
  not_among (c ∷ rest) b e = not_among rest b e

  all_among-Chosen :
      (choices : List String) (items : Items)
      → all_among choices items ≡ true
      → Chosen choices items
  all_among-Chosen choices nil e = tt
  all_among-Chosen choices (cons (string s) rest) e =
      ((s, refl, first _ _ e), all_among-Chosen choices rest (second (any (str_eq s) choices) _ e))
  all_among-Chosen choices (cons null rest) e = absurd (not_among choices true (first _ _ e))
  all_among-Chosen choices (cons (boolean b) rest) e = absurd (not_among choices b (first _ _ e))
  all_among-Chosen choices (cons (number s) rest) e = absurd (not_among choices true (first _ _ e))
  all_among-Chosen choices (cons (array v) rest) e = absurd (not_among choices true (first _ _ e))
  all_among-Chosen choices (cons (object v) rest) e = absurd (not_among choices true (first _ _ e))

  module _ (schema : Value) (f : InputField) where
    text-Allowed :
        (v : Value)
        → str_eq f.kind "string" ≡ true
        → string_fits reader v schema f ≡ true
        → Allowed schema f v
    text-Allowed (string s) kind e =
        let rest =
          second (bounded (number_by reader reader.as_u64 (at schema "minLength")) _) _ e in
        a_text s kind (λ n given. low n _ (within _ _ (first _ _ e) n given))
          (λ n given. low _ n (within _ _ (first _ _ rest) n given))
          (one_choice f.choices s
            (second (bounded (number_by reader reader.as_u64 (at schema "maxLength")) _) _ rest))
    text-Allowed null kind e = absurd (cc)
    text-Allowed (boolean b) kind e = absurd (cc)
    text-Allowed (number s) kind e = absurd (cc)
    text-Allowed (array items) kind e = absurd (cc)
    text-Allowed (object fields) kind e = absurd (cc)

    boolean-Allowed :
        (v : Value)
        → str_eq f.kind "boolean" ≡ true
        → is_boolean reader v ≡ true
        → Allowed schema f v
    boolean-Allowed (boolean b) kind e = a_boolean b kind
    boolean-Allowed null kind e = absurd (cc)
    boolean-Allowed (string s) kind e = absurd (cc)
    boolean-Allowed (number s) kind e = absurd (cc)
    boolean-Allowed (array items) kind e = absurd (cc)
    boolean-Allowed (object fields) kind e = absurd (cc)

    read-Allowed :
        (s : String) (read : Option ℕ)
        → (str_eq f.kind "number" || str_eq f.kind "integer") ≡ true
        → reader.as_f64 s ≡ read
        → number_fits reader read schema f ≡ true
        → Allowed schema f (number s)
    read-Allowed s none kind is e = absurd (cc)
    read-Allowed s (some v) kind is e =
        let bounds = second (not (str_eq f.kind "integer") || reader.is_whole v) _ e in
        a_number s v kind is
          (λ whole. implied (str_eq f.kind "integer") (reader.is_whole v) (first _ _ e) whole)
          (λ n given. within _ _ (first _ _ bounds) n given)
          (λ n given.
            within _ _
              (second (bounded (number_by reader reader.as_f64 (at schema "minimum")) _) _ bounds) n
              given)
      where
        implied : (a b : Bool) → (not a || b) ≡ true → a ≡ true → b ≡ true
        implied a b e h = ground arith

    number-Allowed :
        (v : Value)
        → (str_eq f.kind "number" || str_eq f.kind "integer") ≡ true
        → number_fits reader (number_by reader reader.as_f64 v) schema f ≡ true
        → Allowed schema f v
    number-Allowed (number s) kind e = read-Allowed s (reader.as_f64 s) kind refl e
    number-Allowed null kind e = absurd (cc)
    number-Allowed (boolean b) kind e = absurd (cc)
    number-Allowed (string s) kind e = absurd (cc)
    number-Allowed (array items) kind e = absurd (cc)
    number-Allowed (object fields) kind e = absurd (cc)

    list-Allowed :
        (v : Value)
        → str_eq f.kind "array" ≡ true
        → array_fits reader v schema f ≡ true
        → Allowed schema f v
    list-Allowed (array items) kind e =
        let bounds = second (all_among f.choices items) _ e in
        a_list items kind (all_among-Chosen f.choices items (first _ _ e))
          (λ n given. low n _ (within _ _ (first _ _ bounds) n given))
          (λ n given. low _ n (
            within _ _
              (second (bounded (number_by reader reader.as_u64 (at schema "minItems")) _) _ bounds)
              n given))
    list-Allowed null kind e = absurd (cc)
    list-Allowed (boolean b) kind e = absurd (cc)
    list-Allowed (number s) kind e = absurd (cc)
    list-Allowed (string s) kind e = absurd (cc)
    list-Allowed (object fields) kind e = absurd (cc)

    pub is_valid-Allowed : (v : Value) → is_valid reader v schema f ≡ true → Allowed schema f v
    unfolding is_valid
    is_valid-Allowed v e =
        by_kind (str_eq f.kind "string") (str_eq f.kind "boolean")
          (str_eq f.kind "number" || str_eq f.kind "integer") (str_eq f.kind "array") refl refl refl
          refl e
      where
        by_kind :
            (s b n a : Bool)
            → str_eq f.kind "string" ≡ s
            → str_eq f.kind "boolean" ≡ b
            → (str_eq f.kind "number" || str_eq f.kind "integer") ≡ n
            → str_eq f.kind "array" ≡ a
            → (if s
                then string_fits reader v schema f
                else if b
                then is_boolean reader v
                else if n
                then number_fits reader (number_by reader reader.as_f64 v) schema f
                else if a
                then array_fits reader v schema f
                else false)
              ≡ true
            → Allowed schema f v
        by_kind true b n a is is_b is_n is_a e = text-Allowed v is e
        by_kind false true n a is is_b is_n is_a e = boolean-Allowed v is_b e
        by_kind false false true a is is_b is_n is_a e = number-Allowed v is_n e
        by_kind false false false true is is_b is_n is_a e = list-Allowed v is_a e
        by_kind false false false false is is_b is_n is_a e = absurd (cc)
