-- ===== src/Config/Layers/Distinct.antt =====
-- The keys of a layer of settings (crates/core/src/config/layer.rs) stay distinct, as the keys of a
-- `BTreeMap` are.
use remote_codex.Base.{
  ◌≡◌, refl, sym, ap, ◌∙◌, Bool, true, false, not, ◌&&◌, Option, some, List, [], ◌∷◌, Result, ok,
  err, if◌then◌else◌, is_some, arith,
}
use remote_codex.Config.{ConfigError}
use remote_codex.Config.Text.{Text, text_eq}
use remote_codex.Config.Keys.{
  ConfigKey, background, disconnect_grace_seconds, reconnect_max_attempts, environment, proxy_mode,
  execution_mode, ssh_host, ssh_user, ssh_port, key_eq,
}
use remote_codex.Config.Values.{ConfigValue, Url, parse_value, requires_secret}
use remote_codex.Config.Layers.{
  ConfigInput, StoredSetting, ConfigLayer, get, insert, remove, is_environment, names_proxy,
  writable_key, restored, restore_secret, raw_of, is_plain_input, stored_value, conflicts, store,
  checked_store, set_key, set, unset_key, unset, Edit, sets, restores, unsets, or_before,
  without_answer, edit, edits,
}
use remote_codex.Config.Layers.Secrets.{key_eq_sound}

-- No key stands in the layer twice.
abbrev pub distinct : ConfigLayer → Bool
distinct [] = true
distinct ((key, setting) ∷ rest) = not (is_some (get key rest)) && distinct rest

pub text_eq_refl : (t : Text) → text_eq t t ≡ true
text_eq_refl [] = refl
text_eq_refl (c ∷ t) = let same = text_eq_refl t in ground arith

key_eq_refl : (key : ConfigKey) → key_eq key key ≡ true
key_eq_refl background = refl
key_eq_refl disconnect_grace_seconds = refl
key_eq_refl reconnect_max_attempts = refl
key_eq_refl (environment name) = text_eq_refl name
key_eq_refl proxy_mode = refl
key_eq_refl execution_mode = refl
key_eq_refl ssh_host = refl
key_eq_refl ssh_user = refl
key_eq_refl ssh_port = refl

apart : (x k key : ConfigKey) → key_eq x k ≡ false → key_eq x key ≡ true → key_eq k key ≡ true → ⊥
apart x k key e p q =
    contradiction (ap (λ y. key_eq y k) one ∙ ap (key_eq key) two ∙ key_eq_refl key)
  where
    one : x ≡ key
    one = key_eq_sound x key p

    two : k ≡ key
    two = key_eq_sound k key q

    contradiction : key_eq x k ≡ true → ⊥
    contradiction f = cc

module _ {A : Type 0} where
  same_test :
      (p q : Bool)
      → p ≡ q
      → (a b : A) (o : Option A)
      → (if p then some a else o) ≡ (if q then some a else (if p then some b else o))
  same_test true true e a b o = refl
  same_test false false e a b o = refl
  same_test true false e a b o = absurd (cc)
  same_test false true e a b o = absurd (cc)

  other_test :
      (p q : Bool)
      → (p ≡ true → q ≡ true → ⊥)
      → (a b : A) (o : Option A)
      → (if p then some b else (if q then some a else o))
        ≡ (if q then some a else (if p then some b else o))
  other_test true true e a b o = absurd (e refl refl)
  other_test true false e a b o = refl
  other_test false true e a b o = refl
  other_test false false e a b o = refl

  pub get-insert :
      (key k : ConfigKey) (a : A) (l : List (ConfigKey × A))
      → get key (insert k a l) ≡ (if key_eq k key then some a else get key l)
  unfolding get insert
  get-insert key k a [] = refl
  get-insert key k a ((x, b) ∷ rest) = by_test (key_eq x k) refl (get-insert key k a rest)
    where
      by_test :
          (t : Bool)
          → key_eq x k ≡ t
          → get key (insert k a rest) ≡ (if key_eq k key then some a else get key rest)
          → get key (if t then (x, a) ∷ rest else (x, b) ∷ insert k a rest)
            ≡ (if key_eq k key then some a else (if key_eq x key then some b else get key rest))
      by_test true e later =
          same_test (key_eq x key) (key_eq k key) (ap (λ y. key_eq y key) (key_eq_sound x k e)) a b
            (get key rest)
      by_test false e later =
          ap (λ o. if key_eq x key then some b else o) later
          ∙ other_test (key_eq x key) (key_eq k key) (apart x k key e) a b (get key rest)

  get-remove :
      (key k : ConfigKey) (l : List (ConfigKey × A))
      → is_some (get key l) ≡ false
      → is_some (get key (remove k l)) ≡ false
  unfolding get remove
  get-remove key k [] e = refl
  get-remove key k ((x, b) ∷ rest) e =
      by_test (key_eq x k) (get-remove key k rest (later (key_eq x key) e))
    where
      later :
          (u : Bool)
          → is_some (if u then some b else get key rest) ≡ false
          → is_some (get key rest) ≡ false
      later true e = absurd (cc)
      later false e = e

      absent :
          (u : Bool)
          → is_some (if u then some b else get key rest) ≡ false
          → is_some (get key (remove k rest)) ≡ false
          → is_some (if u then some b else get key (remove k rest)) ≡ false
      absent true e gone = e
      absent false e gone = gone

      by_test :
          (t : Bool)
          → is_some (get key (remove k rest)) ≡ false
          → is_some (get key (if t then rest else (x, b) ∷ remove k rest)) ≡ false
      by_test true gone = later (key_eq x key) e
      by_test false gone = absent (key_eq x key) e gone

key_eq-flip : (a b : ConfigKey) → key_eq a b ≡ false → key_eq b a ≡ false
key_eq-flip a b e = by_test (key_eq b a) refl
  where
    by_test : (t : Bool) → key_eq b a ≡ t → t ≡ false
    by_test true f =
        absurd (contradiction (ap (λ y. key_eq y b) (sym (key_eq_sound b a f)) ∙ key_eq_refl b))
      where
        contradiction : key_eq a b ≡ true → ⊥
        contradiction g = cc
    by_test false f = refl

left_absent : (p q : Bool) → (not p && q) ≡ true → p ≡ false
left_absent p q e = ground arith

both_hold : (p q : Bool) → p ≡ false → q ≡ true → (not p && q) ≡ true
both_hold p q e f = ground arith

insert-distinct :
    (key : ConfigKey) (a : StoredSetting) (l : ConfigLayer)
    → distinct l ≡ true
    → distinct (insert key a l) ≡ true
unfolding insert get
insert-distinct key a [] good = refl
insert-distinct key a ((x, b) ∷ rest) good =
    by_test (key_eq x key) refl (insert-distinct key a rest (ground arith))
  where
    by_test :
        (t : Bool)
        → key_eq x key ≡ t
        → distinct (insert key a rest) ≡ true
        → distinct (if t then (x, a) ∷ rest else (x, b) ∷ insert key a rest) ≡ true
    by_test true e later = good
    by_test false e later =
        both_hold (is_some (get x (insert key a rest))) (distinct (insert key a rest))
          (ap is_some (
              get-insert x key a rest
              ∙ ap (λ t. if t then some a else get x rest) (key_eq-flip x key e))
            ∙ left_absent (is_some (get x rest)) (distinct rest) good)
          later

remove-distinct :
    (key : ConfigKey) (l : ConfigLayer) → distinct l ≡ true → distinct (remove key l) ≡ true
unfolding remove
remove-distinct key [] good = refl
remove-distinct key ((x, b) ∷ rest) good =
    by_test (key_eq x key) (remove-distinct key rest (ground arith))
      (get-remove x key rest (ground arith))
  where
    by_test :
        (t : Bool)
        → distinct (remove key rest) ≡ true
        → is_some (get x (remove key rest)) ≡ false
        → distinct (if t then rest else (x, b) ∷ remove key rest) ≡ true
    by_test true later gone = ground arith
    by_test false later gone = ground arith

abbrev Spread : Result ConfigError ConfigLayer → Type 0
Spread (ok layer) = distinct layer ≡ true
Spread (err e) = Unit

if_Spread :
    (b : Bool) (e : ConfigError) (r : Result ConfigError ConfigLayer)
    → Spread r
    → Spread (if b then err e else r)
if_Spread true e r p = tt
if_Spread false e r p = p

restored-Spread :
    (spelling reference : Text) (layer : ConfigLayer) (r : Result ConfigError ConfigKey)
    → distinct layer ≡ true
    → Spread (restored spelling reference layer r)
restored-Spread spelling reference layer (err e) good = tt
restored-Spread spelling reference layer (ok key) good =
    if_Spread (not (is_environment key)) _ _
      (if_Spread (is_some (get key layer)) _ _ (insert-distinct key _ layer good))

store-Spread :
    (spelling : Text) (key : ConfigKey) (value : ConfigValue) (layer : ConfigLayer)
    → distinct layer ≡ true
    → Spread (store spelling key value layer)
unfolding store
store-Spread spelling key value layer good =
    if_Spread (names_proxy key && conflicts spelling value (get key layer)) _ _
      (insert-distinct key _ layer good)

checked_store-Spread :
    (spelling : Text) (input : ConfigInput) (key : ConfigKey) (layer : ConfigLayer)
    (r : Result ConfigError ConfigValue)
    → distinct layer ≡ true
    → Spread (checked_store spelling input key layer r)
checked_store-Spread spelling input key layer (err e) good = tt
checked_store-Spread spelling input key layer (ok v) good =
    if_Spread (not (is_plain_input input) && not (is_environment key)) _ _ (
      if_Spread (is_plain_input input && requires_secret key (raw_of input)) _ _
        (store-Spread spelling key (stored_value input v) layer good))

unset_key-Spread :
    (layer : ConfigLayer) (r : Result ConfigError ConfigKey)
    → distinct layer ≡ true
    → Spread (without_answer (unset_key layer r))
unset_key-Spread layer (err e) good = tt
unset_key-Spread layer (ok key) good = remove-distinct key layer good

or_before-Spread :
    (layer : ConfigLayer) (r : Result ConfigError ConfigLayer)
    → distinct layer ≡ true
    → Spread r
    → distinct (or_before layer r) ≡ true
or_before-Spread layer (ok after) good p = p
or_before-Spread layer (err e) good p = good

module _ (parse_url : Text → Option Url) where
  set_key-Spread :
      (spelling : Text) (input : ConfigInput) (layer : ConfigLayer)
      (r : Result ConfigError ConfigKey)
      → distinct layer ≡ true
      → Spread (set_key parse_url spelling input layer r)
  set_key-Spread spelling input layer (err e) good = tt
  set_key-Spread spelling input layer (ok key) good =
      checked_store-Spread spelling input key layer (parse_value parse_url key (raw_of input)) good

  edit-distinct :
      (e : Edit) (layer : ConfigLayer)
      → distinct layer ≡ true
      → distinct (edit parse_url e layer) ≡ true
  unfolding edit set restore_secret unset
  edit-distinct (sets spelling input) layer good =
      or_before-Spread layer (set parse_url spelling input layer) good
        (set_key-Spread spelling input layer (writable_key spelling) good)
  edit-distinct (restores spelling reference) layer good =
      or_before-Spread layer (restore_secret spelling reference layer) good
        (restored-Spread spelling reference layer (writable_key spelling) good)
  edit-distinct (unsets spelling) layer good =
      or_before-Spread layer (without_answer (unset spelling layer)) good
        (unset_key-Spread layer (writable_key spelling) good)

  pub edits-distinct :
      (l : List Edit) (layer : ConfigLayer)
      → distinct layer ≡ true
      → distinct (edits parse_url l layer) ≡ true
  unfolding edits
  edits-distinct [] layer good = good
  edits-distinct (e ∷ rest) layer good =
      edits-distinct rest (edit parse_url e layer) (edit-distinct e layer good)
