-- ===== src/Config/Resolve.antt =====
-- crates/core/src/config/resolve.rs: the settings in force, and what is shown of them.
pub mod Overrides
pub mod Redaction
use remote_codex.Base.{
  ℕ, Bool, true, false, not, ◌&&◌, Option, none, some, List, [], ◌∷◌, Result, ok, err, map,
  if◌then◌else◌, any,
}
use remote_codex.Config.{ConfigError, missing_custom_proxy, ProxyMode, inherit, custom, direct}
use remote_codex.Config.Text.{Text}
use remote_codex.Config.Keys.{ConfigKey, proxy_mode, environment, key_name, is_proxy_address}
use remote_codex.Config.Values.{
  ConfigValue, boolean, integer, plain, mode, secret, ApplyPolicy, spec, default_keys,
}
use remote_codex.Config.Layers.{StoredSetting, ConfigLayer, get, insert, names_proxy}

pub data Source : Type 0 where
  default_source server_source : Source

pub record EffectiveSetting : Type 0 where
  pub value : ConfigValue
  pub source : Source

abbrev pub EffectiveConfig : Type 0
EffectiveConfig = List (ConfigKey × EffectiveSetting)

pub data VisibleValue : Type 0 where
  boolean_value : Bool → VisibleValue
  integer_value : ℕ → VisibleValue
  text_value : Text → VisibleValue
  mode_value : ProxyMode → VisibleValue

-- `ConfigValue::visible` of value.rs.
abbrev pub visible : ConfigValue → Option VisibleValue
visible (boolean b) = some (boolean_value b)
visible (integer n) = some (integer_value n)
visible (plain t) = some (text_value t)
visible (mode m) = some (mode_value m)
visible (secret r) = none

abbrev add_default : ConfigKey → Option ConfigValue → EffectiveConfig → EffectiveConfig
add_default key none config = config
add_default key (some value) config =
    insert key (record { value = value; source = default_source }) config

unfoldable pub with_defaults : List ConfigKey → EffectiveConfig → EffectiveConfig
with_defaults [] config = config
with_defaults (key ∷ rest) config = with_defaults rest (add_default key (spec key).default config)

unfoldable pub with_server : ConfigLayer → EffectiveConfig → EffectiveConfig
with_server [] config = config
with_server ((key, setting) ∷ rest) config =
    with_server rest (insert key (record { value = setting.value; source = server_source }) config)

abbrev mode_of : Option EffectiveSetting → ProxyMode
mode_of none = direct
mode_of (some setting) = elim setting.value [
  | mode m ↦ m
  | boolean b ↦ direct
  | integer n ↦ direct
  | plain t ↦ direct
  | secret r ↦ direct
]

unfoldable pub proxy_mode_of : EffectiveConfig → ProxyMode
proxy_mode_of config = mode_of (get proxy_mode config)

abbrev is_custom : ProxyMode → Bool
is_custom custom = true
is_custom _ = false

abbrev pub is_direct : ProxyMode → Bool
is_direct direct = true
is_direct _ = false

abbrev is_address : ConfigKey → Bool
is_address (environment name) = is_proxy_address name
is_address _ = false

abbrev checked_proxy : EffectiveConfig → Result ConfigError EffectiveConfig
checked_proxy config =
    if is_custom (proxy_mode_of config) && not (any (λ entry. is_address entry.0) config)
    then err missing_custom_proxy
    else ok config

unfoldable pub resolve : ConfigLayer → Result ConfigError EffectiveConfig
unfolding with_defaults with_server
resolve server = checked_proxy (with_server server (with_defaults default_keys []))

pub record SettingView : Type 0 where
  pub key : Text
  pub value : Option VisibleValue
  pub redacted : Bool
  pub source : Source
  pub apply_policy : ApplyPolicy
  pub masked_by_proxy_mode : Bool

abbrev is_secret : ConfigValue → Bool
is_secret (secret r) = true
is_secret _ = false

unfoldable pub setting_view : EffectiveConfig → ConfigKey → EffectiveSetting → SettingView
setting_view config key setting = record {
  key = key_name key;
  value = visible setting.value;
  redacted = is_secret setting.value;
  source = setting.source;
  apply_policy = (spec key).apply;
  masked_by_proxy_mode = is_direct (proxy_mode_of config) && names_proxy key;
}
