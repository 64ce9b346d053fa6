-- ===== src/Config/Values.antt =====
-- crates/core/src/config/value.rs and registry.rs: the kinds of settings, their values and how they
-- are parsed. The parser of URLs is an argument.
pub mod Bounds
use remote_codex.Base.{
  ℕ, ◌+◌, ◌-◌, ◌*◌, String, Bool, true, false, not, ◌&&◌, ◌||◌, Option, none, some, List, [], ◌∷◌,
  Result, ok, err, if◌then◌else◌, ltb, leb, ◌==◌, any, all, is_some,
}
use remote_codex.Config.{
  ConfigError, read_only_setting, invalid_value, ProxyMode, inherit, custom, direct,
}
use remote_codex.Config.Text.{
  Text, text, text_eq, one_of, is_digit, is_letter, is_control, is_whitespace, starts_with,
  after_scheme, split, byte_length,
}
use remote_codex.Config.Keys.{
  ConfigKey, background, disconnect_grace_seconds, reconnect_max_attempts, environment, proxy_mode,
  execution_mode, ssh_host, ssh_user, ssh_port, is_proxy, is_proxy_address, is_sensitive,
}

pub data ConfigValue : Type 0 where
  boolean : Bool → ConfigValue
  integer : ℕ → ConfigValue
  plain : Text → ConfigValue
  mode : ProxyMode → ConfigValue
  -- a credential's reference
  secret : Text → ConfigValue

pub data ApplyPolicy : Type 0 where
  supervisor next_disconnect next_reconnect new_process read_only : ApplyPolicy

pub data ValueKind : Type 0 where
  a_boolean grace_seconds retry_attempts an_execution_mode a_variable a_proxy_mode identity :
      ValueKind

pub record SettingSpec : Type 0 where
  pub kind : ValueKind
  pub writable : Bool
  pub apply : ApplyPolicy
  pub default : Option ConfigValue

abbrev writable_spec : ValueKind → ApplyPolicy → Option ConfigValue → SettingSpec
writable_spec kind apply default = record {
  kind = kind;
  writable = true;
  apply = apply;
  default = default;
}

abbrev identity_spec : SettingSpec
identity_spec = record { kind = identity; writable = false; apply = read_only; default = none }

abbrev pub spec : ConfigKey → SettingSpec
spec background = writable_spec a_boolean supervisor (some (boolean true))
spec disconnect_grace_seconds = writable_spec grace_seconds next_disconnect (some (integer 30))
spec reconnect_max_attempts = writable_spec retry_attempts next_reconnect (some (integer 10))
spec (environment name) = writable_spec a_variable new_process none
spec proxy_mode = writable_spec a_proxy_mode new_process (some (mode direct))
spec execution_mode = writable_spec an_execution_mode new_process (some (plain (text "sandboxed")))
spec ssh_host = identity_spec
spec ssh_user = identity_spec
spec ssh_port = identity_spec

abbrev pub default_keys : List ConfigKey
default_keys =
    background ∷ disconnect_grace_seconds ∷ reconnect_max_attempts ∷ proxy_mode ∷ execution_mode
    ∷ []

-- `parse::<u16>` of digits alone: the code refuses a leading plus by the test of the digits.
abbrev digits_value : ℕ → Text → ℕ
digits_value sofar [] = sofar
digits_value sofar (c ∷ t) = digits_value (sofar * 10 + (c - b'0')) t

abbrev parse_u16 : Text → Option ℕ
parse_u16 [] = none
parse_u16 (c ∷ t) =
    let value = digits_value 0 (c ∷ t) in
    if all is_digit (c ∷ t) && leb value 65535 then some value else none

abbrev bounded : (ℕ → Bool) → Option ℕ → Result ConfigError ConfigValue
bounded accepts none = err invalid_value
bounded accepts (some n) = if accepts n then ok (integer n) else err invalid_value

pub record Url : Type 0 where
  pub scheme : Text
  pub host : Option Text
  pub port : Option ℕ
  pub path : Text
  pub query : Option Text
  pub fragment : Option Text

abbrev is_zero : Option ℕ → Bool
is_zero none = false
is_zero (some n) = n == 0

abbrev proxy_url : Option Url → Bool
proxy_url none = false
proxy_url (some u) =
    one_of (text "http" ∷ text "https" ∷ text "socks5" ∷ text "socks5h" ∷ []) u.scheme
    && (is_some u.host
        && (not (is_zero u.port)
            && (one_of ([] ∷ text "/" ∷ []) u.path
                && (not (is_some u.query) && not (is_some u.fragment)))))

unfoldable pub requires_secret : ConfigKey → Text → Bool
requires_secret (environment name) raw =
    is_sensitive name
    || (is_proxy_address name && elim (after_scheme raw) [
      | none ↦ false
      | some rest ↦ elim (split b'/' rest) [ [] ↦ false | part ∷ parts ↦ any (λ c. c == b'@') part ]
    ])
requires_secret _ raw = false

module _ (parse_url : Text → Option Url) where
  unfoldable pub validate_proxy : Text → Bool
  validate_proxy raw =
      not (any (λ c. is_whitespace c || (is_control c || c == b'\\')) raw)
      && (is_some (after_scheme raw) && proxy_url (parse_url raw))

  unfoldable pub proxy_setting : Text → Text → Bool
  unfolding validate_proxy
  proxy_setting name raw =
      (not (is_proxy_address name) || validate_proxy raw)
      && not (is_proxy name && any is_control raw)

  abbrev parse_kind : ValueKind → ConfigKey → Text → Result ConfigError ConfigValue
  parse_kind a_boolean key raw =
      if text_eq raw (text "true")
      then ok (boolean true)
      else if text_eq raw (text "false")
      then ok (boolean false)
      else err invalid_value
  parse_kind grace_seconds key raw = bounded (λ n. leb n 3600) (parse_u16 raw)
  parse_kind retry_attempts key raw = bounded (λ n. ltb 0 n) (parse_u16 raw)
  parse_kind an_execution_mode key raw =
      if one_of (text "sandboxed" ∷ text "unrestricted" ∷ []) raw
      then ok (plain raw)
      else err invalid_value
  parse_kind a_variable (environment name) raw =
      if proxy_setting name raw then ok (plain raw) else err invalid_value
  parse_kind a_variable key raw = ok (plain raw)
  parse_kind a_proxy_mode key raw =
      if text_eq raw (text "inherit")
      then ok (mode inherit)
      else if text_eq raw (text "custom")
      then ok (mode custom)
      else if text_eq raw (text "direct")
      then ok (mode direct)
      else err invalid_value
  parse_kind identity key raw = err read_only_setting

  unfoldable pub parse_value : ConfigKey → Text → Result ConfigError ConfigValue
  parse_value key raw =
      if ltb 32768 (byte_length raw) || any (λ c. c == 0) raw
      then err invalid_value
      else parse_kind (spec key).kind key raw
