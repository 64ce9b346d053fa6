-- ===== src/Config/Layers.antt =====
-- crates/core/src/config/layer.rs: the settings of a server. The map is a list of its entries; the
-- order of the code's `BTreeMap` is not kept.
pub mod Secrets
pub mod Distinct
use remote_codex.Base.{
  ℕ, Bool, true, false, not, ◌&&◌, ◌||◌, Option, none, some, List, [], ◌∷◌, Result, ok, err,
  if◌then◌else◌, is_some, ◌==◌,
}
use remote_codex.Config.{
  ConfigError, read_only_setting, secret_not_allowed, secret_required, conflicting_proxy_aliases,
  ProxyMode, inherit, custom, direct,
}
use remote_codex.Config.Text.{Text, text_eq}
use remote_codex.Config.Keys.{ConfigKey, environment, parse_key, key_eq, is_proxy}
use remote_codex.Config.Values.{
  ConfigValue, boolean, integer, plain, mode, secret, SettingSpec, spec, Url, parse_value,
  requires_secret,
}

pub data ConfigInput : Type 0 where
  plain_input : (raw : Text) → ConfigInput
  secret_input : (reference raw : Text) → ConfigInput

pub record StoredSetting : Type 0 where
  pub spelling : Text
  pub value : ConfigValue

abbrev pub ConfigLayer : Type 0
ConfigLayer = List (ConfigKey × StoredSetting)

-- `BTreeMap::get`, `insert` and `remove`.
module _ {A : Type 0} where
  unfoldable pub get : ConfigKey → List (ConfigKey × A) → Option A
  get key [] = none
  get key ((k, a) ∷ rest) = if key_eq k key then some a else get key rest

  unfoldable pub insert : ConfigKey → A → List (ConfigKey × A) → List (ConfigKey × A)
  insert key a [] = (key, a) ∷ []
  insert key a ((k, b) ∷ rest) =
      let later = insert key a rest in if key_eq k key then (k, a) ∷ rest else (k, b) ∷ later

  unfoldable pub remove : ConfigKey → List (ConfigKey × A) → List (ConfigKey × A)
  remove key [] = []
  remove key ((k, b) ∷ rest) =
      let later = remove key rest in if key_eq k key then rest else (k, b) ∷ later

abbrev pub is_environment : ConfigKey → Bool
is_environment (environment name) = true
is_environment _ = false

abbrev pub names_proxy : ConfigKey → Bool
names_proxy (environment name) = is_proxy name
names_proxy _ = false

unfoldable pub value_eq : ConfigValue → ConfigValue → Bool
value_eq (boolean true) (boolean b) = b
value_eq (boolean false) (boolean b) = not b
value_eq (integer m) (integer n) = m == n
value_eq (plain s) (plain t) = text_eq s t
value_eq (mode inherit) (mode inherit) = true
value_eq (mode custom) (mode custom) = true
value_eq (mode direct) (mode direct) = true
value_eq (secret s) (secret t) = text_eq s t
value_eq _ _ = false

abbrev check_writable : Result ConfigError ConfigKey → Result ConfigError ConfigKey
check_writable (err e) = err e
check_writable (ok key) = if (spec key).writable then ok key else err read_only_setting

unfoldable pub writable_key : Text → Result ConfigError ConfigKey
writable_key spelling = check_writable (parse_key spelling)

abbrev restored :
    Text → Text → ConfigLayer → Result ConfigError ConfigKey → Result ConfigError ConfigLayer
restored spelling reference layer (err e) = err e
restored spelling reference layer (ok key) =
    if not (is_environment key)
    then err secret_not_allowed
    else if is_some (get key layer)
    then err conflicting_proxy_aliases
    else ok (insert key (record { spelling = spelling; value = secret reference }) layer)

unfoldable pub restore_secret : Text → Text → ConfigLayer → Result ConfigError ConfigLayer
unfolding writable_key
restore_secret spelling reference layer = restored spelling reference layer (writable_key spelling)

abbrev raw_of : ConfigInput → Text
raw_of (plain_input raw) = raw
raw_of (secret_input reference raw) = raw

abbrev is_plain_input : ConfigInput → Bool
is_plain_input (plain_input raw) = true
is_plain_input (secret_input reference raw) = false

abbrev stored_value : ConfigInput → ConfigValue → ConfigValue
stored_value (plain_input raw) value = value
stored_value (secret_input reference raw) value = secret reference

-- Another spelling of a proxy's name has another value.
abbrev conflicts : Text → ConfigValue → Option StoredSetting → Bool
conflicts spelling value none = false
conflicts spelling value (some previous) =
    not (text_eq previous.spelling spelling) && not (value_eq previous.value value)

abbrev kept_spelling : Text → Option StoredSetting → Text
kept_spelling spelling none = spelling
kept_spelling spelling (some entry) = entry.spelling

unfoldable pub store : Text → ConfigKey → ConfigValue → ConfigLayer → Result ConfigError ConfigLayer
store spelling key value layer =
    if names_proxy key && conflicts spelling value (get key layer)
    then err conflicting_proxy_aliases
    else ok (
        insert key (record { spelling = kept_spelling spelling (get key layer); value = value })
          layer)

abbrev checked_store :
    Text
    → ConfigInput
    → ConfigKey
    → ConfigLayer
    → Result ConfigError ConfigValue
    → Result ConfigError ConfigLayer
checked_store spelling input key layer (err e) = err e
checked_store spelling input key layer (ok value) =
    if not (is_plain_input input) && not (is_environment key)
    then err secret_not_allowed
    else if is_plain_input input && requires_secret key (raw_of input)
    then err secret_required
    else store spelling key (stored_value input value) layer

module _ (parse_url : Text → Option Url) where
  abbrev set_key :
      Text
      → ConfigInput
      → ConfigLayer
      → Result ConfigError ConfigKey
      → Result ConfigError ConfigLayer
  set_key spelling input layer (err e) = err e
  set_key spelling input layer (ok key) =
      checked_store spelling input key layer (parse_value parse_url key (raw_of input))

  unfoldable pub set : Text → ConfigInput → ConfigLayer → Result ConfigError ConfigLayer
  unfolding writable_key store
  set spelling input layer = set_key spelling input layer (writable_key spelling)

abbrev unset_key :
    ConfigLayer → Result ConfigError ConfigKey → Result ConfigError (Bool × ConfigLayer)
unset_key layer (err e) = err e
unset_key layer (ok key) = ok (is_some (get key layer), remove key layer)

unfoldable pub unset : Text → ConfigLayer → Result ConfigError (Bool × ConfigLayer)
unfolding writable_key
unset spelling layer = unset_key layer (writable_key spelling)

-- What is done to a layer in turn; where it fails, the layer is as before.
pub data Edit : Type 0 where
  sets : (spelling : Text) → ConfigInput → Edit
  restores : (spelling reference : Text) → Edit
  unsets : (spelling : Text) → Edit

abbrev or_before : ConfigLayer → Result ConfigError ConfigLayer → ConfigLayer
or_before layer (ok after) = after
or_before layer (err e) = layer

abbrev without_answer : Result ConfigError (Bool × ConfigLayer) → Result ConfigError ConfigLayer
without_answer (ok (found, layer)) = ok layer
without_answer (err e) = err e

module _ (parse_url : Text → Option Url) where
  unfoldable pub edit : Edit → ConfigLayer → ConfigLayer
  unfolding set restore_secret unset
  edit (sets spelling input) layer = or_before layer (set parse_url spelling input layer)
  edit (restores spelling reference) layer =
      or_before layer (restore_secret spelling reference layer)
  edit (unsets spelling) layer = or_before layer (without_answer (unset spelling layer))

  unfoldable pub edits : List Edit → ConfigLayer → ConfigLayer
  unfolding edit
  edits [] layer = layer
  edits (e ∷ rest) layer = edits rest (edit e layer)
