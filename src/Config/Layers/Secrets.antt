-- ===== src/Config/Layers/Secrets.antt =====
-- What is kept in a layer of settings (crates/core/src/config/layer.rs): no secret in plain text,
-- and only values within the bounds of their settings.
use mathlib.Core.Path.{subst}
use remote_codex.Base.{
  ◌≡◌, refl, sym, ap, ◌∙◌, Bool, true, false, not, ◌&&◌, Option, List, [], ◌∷◌, Result, ok, err,
  if◌then◌else◌, is_some, All, arith,
}
use remote_codex.Config.{
  ConfigError, secret_not_allowed, secret_required, conflicting_proxy_aliases,
}
use remote_codex.Config.Text.{Text}
use remote_codex.Config.Keys.{
  ConfigKey, background, disconnect_grace_seconds, reconnect_max_attempts, environment, proxy_mode,
  execution_mode, ssh_host, ssh_user, ssh_port, key_eq,
}
use remote_codex.Config.Keys.Names.{text_eq_sound}
use remote_codex.Config.Values.{
  ConfigValue, boolean, integer, plain, mode, secret, ValueKind, a_boolean, grace_seconds,
  retry_attempts, an_execution_mode, a_variable, a_proxy_mode, identity, spec, Url, parse_value,
  requires_secret,
}
use remote_codex.Config.Values.Bounds.{
  Admits, Parsed, parse_value-Parsed, SameText, parse_value-SameText,
}
use remote_codex.Config.Layers.{
  ConfigInput, plain_input, secret_input, StoredSetting, ConfigLayer, get, insert, remove,
  is_environment, names_proxy, writable_key, restored, restore_secret, raw_of, conflicts,
  kept_spelling, store, checked_store, set_key, set, unset_key, unset, Edit, sets, restores, unsets,
  or_before, without_answer, edit, edits,
}

pub key_eq_sound : (a b : ConfigKey) → key_eq a b ≡ true → a ≡ b
key_eq_sound background b e = ground arith
key_eq_sound disconnect_grace_seconds b e = ground arith
key_eq_sound reconnect_max_attempts b e = ground arith
key_eq_sound proxy_mode b e = ground arith
key_eq_sound execution_mode b e = ground arith
key_eq_sound ssh_host b e = ground arith
key_eq_sound ssh_user b e = ground arith
key_eq_sound ssh_port b e = ground arith
key_eq_sound (environment s) (environment t) e = ap environment (text_eq_sound s t e)
key_eq_sound (environment s) b e = absurd (cc)

-- A value that may be kept under a key.
abbrev pub IsKept : ConfigKey → ConfigValue → Type 0
IsKept key (secret r) = is_environment key ≡ true
IsKept key (plain t) = Admits (spec key).kind (plain t) × (requires_secret key t ≡ false)
IsKept key (boolean b) = Admits (spec key).kind (boolean b)
IsKept key (integer n) = Admits (spec key).kind (integer n)
IsKept key (mode m) = Admits (spec key).kind (mode m)

abbrev pub AllKept : ConfigLayer → Type 0
AllKept = All (λ entry. IsKept entry.0 entry.1.value)

insert_keeps :
    (key : ConfigKey) (entry : StoredSetting) (layer : ConfigLayer)
    → IsKept key entry.value
    → AllKept layer
    → AllKept (insert key entry layer)
unfolding insert
insert_keeps key entry [] good kept = (good, tt)
insert_keeps key entry ((k, old) ∷ rest) good kept =
    by_test (key_eq k key) refl (insert_keeps key entry rest good kept.1)
  where
    by_test :
        (b : Bool)
        → key_eq k key ≡ b
        → AllKept (insert key entry rest)
        → AllKept (if b then (k, entry) ∷ rest else (k, old) ∷ insert key entry rest)
    by_test true e later =
        (subst (λ x. IsKept x entry.value) (sym (key_eq_sound k key e)) good, kept.1)
    by_test false e later = (kept.0, later)

remove_keeps : (key : ConfigKey) (layer : ConfigLayer) → AllKept layer → AllKept (remove key layer)
unfolding remove
remove_keeps key [] kept = tt
remove_keeps key ((k, old) ∷ rest) kept = by_test (key_eq k key) (remove_keeps key rest kept.1)
  where
    by_test :
        (b : Bool)
        → AllKept (remove key rest)
        → AllKept (if b then rest else (k, old) ∷ remove key rest)
    by_test true later = kept.1
    by_test false later = (kept.0, later)

abbrev KeptResult : Result ConfigError ConfigLayer → Type 0
KeptResult (ok layer) = AllKept layer
KeptResult (err e) = Unit

unless_kept :
    (b : Bool) (e : ConfigError) (r : Result ConfigError ConfigLayer)
    → (b ≡ false → KeptResult r)
    → KeptResult (if b then err e else r)
unless_kept true e r p = tt
unless_kept false e r p = p refl

restored_keeps :
    (spelling reference : Text) (layer : ConfigLayer) (r : Result ConfigError ConfigKey)
    → AllKept layer
    → KeptResult (restored spelling reference layer r)
restored_keeps spelling reference layer (err e) kept = tt
restored_keeps spelling reference layer (ok key) kept =
    unless_kept (not (is_environment key)) secret_not_allowed _ (λ e.
      unless_kept (is_some (get key layer)) conflicting_proxy_aliases _ (λ f.
        insert_keeps key (record { spelling = spelling; value = secret reference }) layer
          (ground arith) kept))

store_keeps :
    (spelling : Text) (key : ConfigKey) (value : ConfigValue) (layer : ConfigLayer)
    → IsKept key value
    → AllKept layer
    → KeptResult (store spelling key value layer)
unfolding store
store_keeps spelling key value layer good kept =
    unless_kept (names_proxy key && conflicts spelling value (get key layer))
      conflicting_proxy_aliases _
      (λ e.
        insert_keeps key
          (record { spelling = kept_spelling spelling (get key layer); value = value }) layer good
          kept)

unset_key_keeps :
    (layer : ConfigLayer) (r : Result ConfigError ConfigKey)
    → AllKept layer
    → KeptResult (without_answer (unset_key layer r))
unset_key_keeps layer (err e) kept = tt
unset_key_keeps layer (ok key) kept = remove_keeps key layer kept

or_before_keeps :
    (layer : ConfigLayer) (r : Result ConfigError ConfigLayer)
    → AllKept layer
    → KeptResult r
    → AllKept (or_before layer r)
or_before_keeps layer (ok after) kept good = good
or_before_keeps layer (err e) kept good = kept

-- What a parsed plain value needs to be kept.
parsed_IsKept :
    (key : ConfigKey) (raw : Text) (v : ConfigValue)
    → Admits (spec key).kind v
    → SameText raw (ok v)
    → requires_secret key raw ≡ false
    → IsKept key v
parsed_IsKept key raw (plain t) good same open_text =
    (good, ap (requires_secret key) same ∙ open_text)
parsed_IsKept key raw (boolean b) good same open_text = good
parsed_IsKept key raw (integer n) good same open_text = good
parsed_IsKept key raw (mode m) good same open_text = good
parsed_IsKept key raw (secret r) good same open_text = absurd (no_secret (spec key).kind good)
  where
    no_secret : (kind : ValueKind) → Admits kind (secret r) → ⊥
    no_secret a_boolean p = p
    no_secret grace_seconds p = p
    no_secret retry_attempts p = p
    no_secret an_execution_mode p = p
    no_secret a_variable p = p
    no_secret a_proxy_mode p = p
    no_secret identity p = p

checked_store_keeps :
    (spelling : Text) (input : ConfigInput) (key : ConfigKey) (layer : ConfigLayer)
    (r : Result ConfigError ConfigValue)
    → Parsed (spec key).kind r
    → SameText (raw_of input) r
    → AllKept layer
    → KeptResult (checked_store spelling input key layer r)
checked_store_keeps spelling input key layer (err e) good same kept = tt
checked_store_keeps spelling (plain_input raw) key layer (ok v) good same kept =
    unless_kept (requires_secret key raw) secret_required _
      (λ e. store_keeps spelling key v layer (parsed_IsKept key raw v good same e) kept)
checked_store_keeps spelling (secret_input reference raw) key layer (ok v) good same kept =
    unless_kept (not (is_environment key)) secret_not_allowed _
      (λ e. store_keeps spelling key (secret reference) layer (ground arith) kept)

module _ (parse_url : Text → Option Url) where
  set_key_keeps :
      (spelling : Text) (input : ConfigInput) (layer : ConfigLayer)
      (r : Result ConfigError ConfigKey)
      → AllKept layer
      → KeptResult (set_key parse_url spelling input layer r)
  set_key_keeps spelling input layer (err e) kept = tt
  set_key_keeps spelling input layer (ok key) kept =
      checked_store_keeps spelling input key layer (parse_value parse_url key (raw_of input))
        (parse_value-Parsed parse_url key (raw_of input))
        (parse_value-SameText parse_url key (raw_of input)) kept

  edit_keeps : (e : Edit) (layer : ConfigLayer) → AllKept layer → AllKept (edit parse_url e layer)
  unfolding edit set restore_secret unset
  edit_keeps (sets spelling input) layer kept =
      or_before_keeps layer (set parse_url spelling input layer) kept
        (set_key_keeps spelling input layer (writable_key spelling) kept)
  edit_keeps (restores spelling reference) layer kept =
      or_before_keeps layer (restore_secret spelling reference layer) kept
        (restored_keeps spelling reference layer (writable_key spelling) kept)
  edit_keeps (unsets spelling) layer kept =
      or_before_keeps layer (without_answer (unset spelling layer)) kept
        (unset_key_keeps layer (writable_key spelling) kept)

  -- Any sequence of edits, failing or not, keeps a layer (the empty one, for a start) in which each
  -- value is within the bounds of its setting, each credential belongs to an environment variable,
  -- and no text is kept that should be a credential: neither of a variable with a sensitive name
  -- nor a proxy's address with a password.
  pub edits_keep :
      (l : List Edit) (layer : ConfigLayer) → AllKept layer → AllKept (edits parse_url l layer)
  unfolding edits
  edits_keep [] layer kept = kept
  edits_keep (e ∷ rest) layer kept =
      edits_keep rest (edit parse_url e layer) (edit_keeps e layer kept)
