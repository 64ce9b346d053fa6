-- ===== src/Config/Keys.antt =====
-- crates/core/src/config/key.rs: the names of environment variables and of settings.
pub mod Names
use remote_codex.Base.{
  ℕ, ◌+◌, Bool, true, false, not, ◌&&◌, ◌||◌, Option, none, some, List, [], ◌∷◌, ◌++◌, Result, ok,
  err, if◌then◌else◌, ltb, ◌==◌, any, all,
}
use remote_codex.Config.{ConfigError, unknown_key, invalid_environment_name, reserved_environment}
use remote_codex.Config.Text.{
  Text, text, text_eq, one_of, is_digit, is_letter, upper, lower, strip_prefix, starts_with,
  ends_with, split, byte_length,
}

abbrev name_start : Text → Bool
name_start [] = false
name_start (c ∷ t) = is_letter c || c == b'_'

abbrev name_code : ℕ → Bool
name_code c = is_letter c || (is_digit c || c == b'_')

abbrev name_rest : Text → Bool
name_rest [] = true
name_rest (c ∷ t) = all name_code t

abbrev pub proxy_names : List Text
proxy_names = text "http_proxy" ∷ text "https_proxy" ∷ text "all_proxy" ∷ text "no_proxy" ∷ []

abbrev reserved_names : List Text
reserved_names =
    text "CODEX_HOME"
    ∷ text "OPENAI_API_KEY"
    ∷ text "CODEX_API_KEY"
    ∷ text "CODEX_ACCESS_TOKEN"
    ∷ text "CODEX_AUTH_JSON"
    ∷ text "HOME"
    ∷ text "USER"
    ∷ text "LOGNAME"
    ∷ text "XDG_CONFIG_HOME"
    ∷ text "XDG_DATA_HOME"
    ∷ text "XDG_RUNTIME_DIR"
    ∷ []

unfoldable pub well_formed : Text → Bool
well_formed name = name_start name && (name_rest name && not (ltb 128 (byte_length name)))

unfoldable pub is_reserved : Text → Bool
is_reserved name =
    starts_with (text "REMOTE_CODEX_") (upper name) || one_of reserved_names (upper name)

unfoldable pub canonical : Text → Text
canonical name = if one_of proxy_names (lower name) then lower name else name

-- `EnvironmentName::parse`; a name is its text.
unfoldable pub parse_name : Text → Result ConfigError Text
unfolding well_formed is_reserved canonical
parse_name name =
    if not (well_formed name)
    then err invalid_environment_name
    else if is_reserved name
    then err reserved_environment
    else ok (canonical name)

unfoldable pub is_proxy : Text → Bool
is_proxy name = one_of proxy_names name

unfoldable pub is_proxy_address : Text → Bool
unfolding is_proxy
is_proxy_address name = is_proxy name && not (text_eq name (text "no_proxy"))

unfoldable pub is_sensitive : Text → Bool
is_sensitive name =
    any
      (one_of
        (text "TOKEN" ∷ text "SECRET" ∷ text "PASSWORD" ∷ text "PASSWD" ∷ text "CREDENTIAL" ∷ []))
      (split b'_' (upper name))
    || (ends_with (text "_KEY") (upper name) || text_eq (upper name) (text "KEY"))

pub data ConfigKey : Type 0 where
  background disconnect_grace_seconds reconnect_max_attempts proxy_mode execution_mode ssh_host
        ssh_user ssh_port :
      ConfigKey
  environment : (name : Text) → ConfigKey

-- The settings with a name of their own.
abbrev fixed_keys : List (Text × ConfigKey)
fixed_keys =
    (text "background", background)
    ∷ (text "disconnect_grace_seconds", disconnect_grace_seconds)
    ∷ (text "reconnect.max_attempts", reconnect_max_attempts)
    ∷ (text "proxy.mode", proxy_mode)
    ∷ (text "execution.mode", execution_mode)
    ∷ (text "ssh.host", ssh_host)
    ∷ (text "ssh.user", ssh_user)
    ∷ (text "ssh.port", ssh_port)
    ∷ []

abbrev find_key : Text → List (Text × ConfigKey) → Option ConfigKey
find_key t [] = none
find_key t ((name, key) ∷ rest) = if text_eq t name then some key else find_key t rest

abbrev as_environment : Result ConfigError Text → Result ConfigError ConfigKey
as_environment (ok name) = ok (environment name)
as_environment (err e) = err e

abbrev other_key : Option Text → Result ConfigError ConfigKey
other_key none = err unknown_key
other_key (some name) = as_environment (parse_name name)

unfoldable pub parse_key : Text → Result ConfigError ConfigKey
parse_key key = elim (find_key key fixed_keys) [
  | some k ↦ ok k
  | none ↦ other_key (strip_prefix (text "env.") key)
]

unfoldable pub key_name : ConfigKey → Text
key_name background = text "background"
key_name disconnect_grace_seconds = text "disconnect_grace_seconds"
key_name reconnect_max_attempts = text "reconnect.max_attempts"
key_name (environment name) = text "env." ++ name
key_name proxy_mode = text "proxy.mode"
key_name execution_mode = text "execution.mode"
key_name ssh_host = text "ssh.host"
key_name ssh_user = text "ssh.user"
key_name ssh_port = text "ssh.port"

abbrev pub key_eq : ConfigKey → ConfigKey → Bool
key_eq background background = true
key_eq disconnect_grace_seconds disconnect_grace_seconds = true
key_eq reconnect_max_attempts reconnect_max_attempts = true
key_eq proxy_mode proxy_mode = true
key_eq execution_mode execution_mode = true
key_eq ssh_host ssh_host = true
key_eq ssh_user ssh_user = true
key_eq ssh_port ssh_port = true
key_eq (environment a) (environment b) = text_eq a b
key_eq _ _ = false
