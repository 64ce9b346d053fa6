-- ===== src/Config/Resolve/Overrides.antt =====
-- Which value is in force (crates/core/src/config/resolve.rs).
use remote_codex.Base.{
  ◌≡◌, refl, sym, ap, ◌∙◌, Bool, true, false, not, ◌&&◌, Option, none, some, [], ◌∷◌, Result, ok,
  err, if◌then◌else◌, is_some, any, arith,
}
use remote_codex.Config.{ConfigError, missing_custom_proxy}
use remote_codex.Config.Keys.{
  ConfigKey, background, disconnect_grace_seconds, reconnect_max_attempts, environment, proxy_mode,
  execution_mode, ssh_host, ssh_user, ssh_port, key_eq,
}
use remote_codex.Config.Values.{ConfigValue, spec, default_keys}
use remote_codex.Config.Layers.{StoredSetting, ConfigLayer, get, insert}
use remote_codex.Config.Layers.Secrets.{key_eq_sound}
use remote_codex.Config.Layers.Distinct.{distinct, get-insert}
use remote_codex.Config.Resolve.{
  default_source, server_source, EffectiveSetting, EffectiveConfig, with_defaults, with_server,
  checked_proxy, is_custom, is_address, proxy_mode_of, resolve,
}

abbrev pub in_force :
    ConfigKey → Option StoredSetting → Option EffectiveSetting → Option EffectiveSetting
in_force key (some setting) default =
    some (record { value = setting.value; source = server_source })
in_force key none default = default

get-with_server :
    (key : ConfigKey) (server : ConfigLayer) (config : EffectiveConfig)
    → distinct server ≡ true
    → get key (with_server server config) ≡ in_force key (get key server) (get key config)
unfolding with_server get
get-with_server key [] config good = refl
get-with_server key ((k, setting) ∷ rest) config good =
    get-with_server key rest (insert k entry config) (ground arith)
    ∙ ap (in_force key (get key rest)) (get-insert key k entry config)
    ∙ by_test (key_eq k key) refl
  where
    entry : EffectiveSetting
    entry = record { value = setting.value; source = server_source }

    empty : (o : Option StoredSetting) → is_some o ≡ false → o ≡ none
    empty none e = refl
    empty (some x) e = absurd (cc)

    nowhere : key_eq k key ≡ true → get key rest ≡ none
    nowhere e =
        ap (λ x. get x rest) (sym (key_eq_sound k key e)) ∙ empty (get k rest) (ground arith)

    by_test :
        (t : Bool)
        → key_eq k key ≡ t
        → in_force key (get key rest) (if t then some entry else get key config)
          ≡ in_force key (if t then some setting else get key rest) (get key config)
    by_test true e = ap (λ o. in_force key o (some entry)) (nowhere e)
    by_test false e = refl

abbrev pub default_of : Option ConfigValue → Option EffectiveSetting
default_of none = none
default_of (some value) = some (record { value = value; source = default_source })

get-with_defaults :
    (key : ConfigKey) → get key (with_defaults default_keys []) ≡ default_of (spec key).default
unfolding with_defaults get insert
get-with_defaults background = refl
get-with_defaults disconnect_grace_seconds = refl
get-with_defaults reconnect_max_attempts = refl
get-with_defaults (environment name) = refl
get-with_defaults proxy_mode = refl
get-with_defaults execution_mode = refl
get-with_defaults ssh_host = refl
get-with_defaults ssh_user = refl
get-with_defaults ssh_port = refl

checked_proxy_same :
    (all_settings config : EffectiveConfig)
    → checked_proxy all_settings ≡ ok config
    → all_settings ≡ config
checked_proxy_same all_settings config e =
    by_test
      (is_custom (proxy_mode_of all_settings)
        && not (any (λ entry. is_address entry.0) all_settings))
      e
  where
    by_test :
        (b : Bool)
        → ◌≡◌ {A = Result ConfigError EffectiveConfig}
            (if b then err missing_custom_proxy else ok all_settings)
            (ok config)
        → all_settings ≡ config
    by_test true f = absurd (cc)
    by_test false f = ap (λ r. elim r [ ok c ↦ c | err g ↦ all_settings ]) f

-- If settings resolve and no key stands twice in the server's layer, the value in force of a key is
-- the server's where it has one, and the default of the setting, if any, elsewhere; and its source
-- says which.
pub resolve_overrides :
    (server : ConfigLayer) (config : EffectiveConfig) (key : ConfigKey)
    → distinct server ≡ true
    → resolve server ≡ ok config
    → get key config ≡ in_force key (get key server) (default_of (spec key).default)
unfolding resolve
resolve_overrides server config key good e =
    ap (get key)
      (sym (checked_proxy_same (with_server server (with_defaults default_keys [])) config e))
    ∙ get-with_server key server (with_defaults default_keys []) good
    ∙ ap (in_force key (get key server)) (get-with_defaults key)
