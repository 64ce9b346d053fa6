-- ===== src/Adapter/Interactions/Filled.antt =====
-- What `answer` of crates/codex-adapter/src/interactions.rs fills a form's content with.
use package.text.Mathlib.Text.{◌==◌ as str_eq}
use remote_codex.Base.{
  String, ◌≡◌, refl, sym, ap, ◌∙◌, Bool, true, false, not, ◌&&◌, ◌||◌, Option, none, some, List, [],
  ◌∷◌, Result, ok, err, if◌then◌else◌, any, all, is_some, arith,
}
use remote_codex.Transfer.Staging.Arrival.{str_eq_refl}
use remote_codex.Session.Errors.{Fault}
use remote_codex.Json.{Value, Fields, end, field, find, put, at}
use remote_codex.Json.Puts.{put_found, put_grows}
use remote_codex.Adapter.Forms.{InputField}
use remote_codex.Adapter.Interactions.{
  Reader, is_valid, filled, value_of, kept, parsed, fill, invalid,
}

abbrev pub all_there : Fields → List InputField → Bool
all_there content fields =
    all (λ (f : InputField). not f.required || is_some (find f.id content)) fields

abbrev read : Fields → Result Fault Fields → Fields
read other (ok a) = a
read other (err e) = other

same_fields : (a b : Fields) → ◌≡◌ {A = Result Fault Fields} (ok a) (ok b) → a ≡ b
same_fields a b same = ap (read a) same

module _ (reader : Reader) (properties : Value) where
  -- A value is valid for a field of that name.
  abbrev pub fits : List InputField → String → Value → Bool
  fits fields name value =
      any (λ (f : InputField). str_eq f.id name && is_valid reader value (at properties name) f)
        fields

  abbrev pub all_fit : List InputField → Fields → Bool
  all_fit fields end = true
  all_fit fields (field name value rest) = fits fields name value && all_fit fields rest

  put-fits :
      (fields : List InputField) (name : String) (value : Value) (content : Fields)
      → fits fields name value ≡ true
      → all_fit fields content ≡ true
      → all_fit fields (put name value content) ≡ true
  put-fits fields name value end good rest = rw good refl
  put-fits fields name value (field other v content) good rest =
      at_first (str_eq other name) (put-fits fields name value content good)
    where
      first : (a b : Bool) → (a && b) ≡ true → a ≡ true
      first a b h = ground arith

      second : (a b : Bool) → (a && b) ≡ true → b ≡ true
      second a b h = ground arith

      at_first :
          (b : Bool)
          → (all_fit fields content ≡ true → all_fit fields (put name value content) ≡ true)
          → all_fit fields
              (if b then field name value content else field other v (put name value content))
            ≡ true
      at_first true later = rw good (second (fits fields other v) _ rest)
      at_first false later =
          rw (first (fits fields other v) _ rest) (later (second (fits fields other v) _ rest))

  kept_valid :
      (f : InputField) (v : Option Value) (value : Value)
      → kept reader properties f v ≡ some value
      → is_valid reader value (at properties f.id) f ≡ true
  kept_valid f none value same = absurd (cc)
  kept_valid f (some v) value same = by_test (is_valid reader v (at properties f.id) f) refl same
    where
      by_test :
          (b : Bool)
          → is_valid reader v (at properties f.id) f ≡ b
          → (if b then some v else none) ≡ some value
          → is_valid reader value (at properties f.id) f ≡ true
      by_test true good same = cc
      by_test false bad same = absurd (cc)

  pub record Fills (whole fields : List InputField) (content result : Fields) : Type 0 where
    pub fit : all_fit whole content ≡ true → all_fit whole result ≡ true
    pub grows : (n : String) → is_some (find n content) ≡ true → is_some (find n result) ≡ true
    pub complete : all_there result fields ≡ true

  abbrev Among : List InputField → List InputField → Type 0
  Among fields whole =
      (name : String) (value : Value) → fits fields name value ≡ true → fits whole name value ≡ true

  skipped :
      (whole fields : List InputField) (f : InputField) (content result : Fields)
      → f.required ≡ false
      → Fills whole fields content result
      → Fills whole (f ∷ fields) content result
  skipped whole fields f content result free later = record {
    fit = later.fit;
    grows = later.grows;
    complete = rw free later.complete;
  }

  added :
      (whole fields : List InputField) (f : InputField) (value : Value) (content result : Fields)
      → fits whole f.id value ≡ true
      → Fills whole fields (put f.id value content) result
      → Fills whole (f ∷ fields) content result
  added whole fields f value content result good later = record {
    fit = λ h. later.fit (put-fits whole f.id value content good h);
    grows = λ n there. later.grows n (put_grows n f.id value content there);
    complete =
        wanted f.required _ _ (later.grows f.id (put_found f.id value content)) later.complete;
  }
    where
      wanted : (a b c : Bool) → b ≡ true → c ≡ true → ((not a || b) && c) ≡ true
      wanted a b c h k = ground arith

  own :
      (f : InputField) (fields : List InputField) (value : Value)
      → is_valid reader value (at properties f.id) f ≡ true
      → fits (f ∷ fields) f.id value ≡ true
  own f fields value good = rw (str_eq_refl f.id, good) refl

  later_fits :
      (f : InputField) (fields whole : List InputField)
      → Among (f ∷ fields) whole
      → Among fields whole
  later_fits f fields whole among name value h = among name value (weaker _ _ h)
    where
      weaker : (a b : Bool) → b ≡ true → (a || b) ≡ true
      weaker a b h = ground arith

  pub filled_by :
      (values : List (String × String)) (whole fields : List InputField) (content result : Fields)
      → Among fields whole
      → fill reader properties values fields content ≡ ok result
      → Fills whole fields content result
  unfolding fill
  filled_by values whole [] content result among same = record {
    fit = λ h. ap (all_fit whole) (sym (same_fields content result same)) ∙ h;
    grows = λ n there. ap (λ c. is_some (find n c)) (sym (same_fields content result same)) ∙ there;
    complete = refl;
  }
  filled_by values whole (f ∷ fields) content result among same =
      by_text (filled (value_of f.id values)) same
        (λ c h. filled_by values whole fields c result (later_fits f fields whole among) h)
    where
      by_value :
          (v : Option Value)
          → ((value : Value) → v ≡ some value → is_valid reader value (at properties f.id) f ≡ true)
          → elim v [
            | none ↦ err invalid
            | some value ↦ fill reader properties values fields (put f.id value content)
          ]
            ≡ ok result
          → ((c : Fields)
              → fill reader properties values fields c ≡ ok result
              → Fills whole fields c result)
          → Fills whole (f ∷ fields) content result
      by_value none good same next = absurd (cc)
      by_value (some value) good same next =
          added whole fields f value content result
            (among f.id value (own f fields value (good value refl)))
            (next (put f.id value content) same)

      by_required :
          (b : Bool)
          → f.required ≡ b
          → (if b then err invalid else fill reader properties values fields content) ≡ ok result
          → ((c : Fields)
              → fill reader properties values fields c ≡ ok result
              → Fills whole fields c result)
          → Fills whole (f ∷ fields) content result
      by_required true needed same next = absurd (cc)
      by_required false free same next =
          skipped whole fields f content result free (next content same)

      by_text :
          (t : Option String)
          → elim t [
            | none ↦
                if f.required then err invalid else fill reader properties values fields content
            | some v ↦ elim (kept reader properties f (parsed reader f v)) [
              | none ↦ err invalid
              | some value ↦ fill reader properties values fields (put f.id value content)
            ]
          ]
            ≡ ok result
          → ((c : Fields)
              → fill reader properties values fields c ≡ ok result
              → Fills whole fields c result)
          → Fills whole (f ∷ fields) content result
      by_text none same next = by_required f.required refl same next
      by_text (some v) same next =
          by_value (kept reader properties f (parsed reader f v)) (kept_valid f (parsed reader f v))
            same next
