-- ===== src/Config/Tests.antt =====
-- crates/core/src/config on concrete settings.
use remote_codex.Base.{◌≡◌, refl, true, false, Option, none, some, List, [], ◌∷◌, ok, err}
use remote_codex.Config.{secret_required, direct}
use remote_codex.Config.Text.{Text, text}
use remote_codex.Config.Keys.{
  ConfigKey, environment, proxy_mode, reconnect_max_attempts, disconnect_grace_seconds, well_formed,
  is_reserved, canonical, parse_name, is_proxy, is_proxy_address, is_sensitive, parse_key, key_name,
}
use remote_codex.Config.Keys.Names.{parse_key-key_name}
use remote_codex.Config.Values.{
  plain, integer, mode, Url, spec, requires_secret, validate_proxy, proxy_setting, parse_value,
  default_keys,
}
use remote_codex.Config.Values.Bounds.{Admits, parse_value-Admits}
use remote_codex.Config.Layers.{
  plain_input, secret_input, ConfigLayer, get, insert, writable_key, store, set, Edit, sets, unsets,
  edit, edits,
}
use remote_codex.Config.Layers.Secrets.{AllKept, edits_keep}
use remote_codex.Config.Resolve.{
  EffectiveSetting, EffectiveConfig, server_source, with_defaults, with_server, proxy_mode_of,
  resolve, setting_view, is_direct,
}
use remote_codex.Config.Environment.{EnvironmentPlan, removals, plan_environment}
use remote_codex.Config.Environment.Proxies.{AllNamed, all_removed, no_proxies, plan_clears}
use remote_codex.Config.Resolve.Overrides.{resolve_overrides}
use remote_codex.Config.Resolve.Redaction.{views_redacted}

abbrev host_only : Text → Option Url
host_only raw = some (record {
  scheme = text "http";
  host = some (text "proxy");
  port = none;
  path = [];
  query = none;
  fragment = none;
})

upper_proxy : parse_key (text "env.HTTP_PROXY") ≡ ok (environment (text "http_proxy"))
unfolding parse_key parse_name well_formed is_reserved canonical
upper_proxy = refl

parse_key-key_name_example :
    parse_key (key_name (environment (text "http_proxy"))) ≡ ok (environment (text "http_proxy"))
parse_key-key_name_example =
    parse_key-key_name (text "env.HTTP_PROXY") (environment (text "http_proxy")) upper_proxy

ten_minutes : parse_value host_only disconnect_grace_seconds (text "600") ≡ ok (integer 600)
unfolding parse_value
ten_minutes = refl

parse_value-Admits_example : Admits (spec disconnect_grace_seconds).kind (integer 600)
parse_value-Admits_example =
    parse_value-Admits host_only disconnect_grace_seconds (text "600") (integer 600) ten_minutes

-- A token in plain text is refused.
plain_token : set host_only (text "env.API_TOKEN") (plain_input (text "x")) [] ≡ err secret_required
unfolding set writable_key store parse_value parse_key parse_name well_formed is_reserved canonical
    is_sensitive is_proxy_address is_proxy proxy_setting validate_proxy requires_secret
plain_token = refl

edits_keep_example : AllKept (
    edits host_only
      (sets (text "env.API_TOKEN") (plain_input (text "x"))
        ∷ sets (text "env.API_TOKEN") (secret_input (text "ref") (text "x"))
        ∷ sets (text "reconnect.max_attempts") (plain_input (text "3"))
        ∷ unsets (text "proxy.mode")
        ∷ [])
      [])
edits_keep_example =
    edits_keep host_only
      (sets (text "env.API_TOKEN") (plain_input (text "x"))
        ∷ sets (text "env.API_TOKEN") (secret_input (text "ref") (text "x"))
        ∷ sets (text "reconnect.max_attempts") (plain_input (text "3"))
        ∷ unsets (text "proxy.mode")
        ∷ [])
      [] tt

abbrev three_attempts : ConfigLayer
three_attempts =
    (reconnect_max_attempts, record { spelling = text "reconnect.max_attempts"; value = integer 3 })
    ∷ []

abbrev in_effect : EffectiveConfig
in_effect = with_server three_attempts (with_defaults default_keys [])

effective : resolve three_attempts ≡ ok in_effect
unfolding resolve with_server with_defaults insert get proxy_mode_of
effective = refl

resolve_overrides_example :
    get reconnect_max_attempts in_effect
    ≡ some (record { value = integer 3; source = server_source })
unfolding get
resolve_overrides_example =
    resolve_overrides three_attempts in_effect reconnect_max_attempts refl effective

abbrev language : List Edit
language = sets (text "env.LANG") (plain_input (text "C")) ∷ []

abbrev language_key : ConfigKey
language_key = environment (text "LANG")

abbrev language_setting : EffectiveSetting
language_setting = record { value = plain (text "C"); source = server_source }

abbrev language_config : EffectiveConfig
language_config =
    with_server
      ((language_key, record { spelling = text "env.LANG"; value = plain (text "C") }) ∷ [])
      (with_defaults default_keys [])

language_resolves : resolve (edits host_only language []) ≡ ok language_config
unfolding resolve with_server with_defaults insert get proxy_mode_of edits edit set writable_key
    store parse_value parse_key parse_name well_formed is_reserved canonical is_sensitive
    is_proxy_address is_proxy proxy_setting validate_proxy requires_secret
language_resolves = refl

language_found : get language_key language_config ≡ some language_setting
unfolding get with_server with_defaults insert
language_found = refl

views_redacted_example : requires_secret language_key (text "C") ≡ false
unfolding setting_view
views_redacted_example =
    views_redacted host_only language language_config language_key language_setting (text "C")
      language_resolves language_found refl

abbrev in_force : EffectiveConfig
in_force =
    (proxy_mode, record { value = mode direct; source = server_source })
    ∷ (environment (text "http_proxy"), record { value = plain (text "x"); source = server_source })
    ∷ (environment (text "LANG"), record { value = plain (text "C"); source = server_source })
    ∷ []

abbrev snapshot : List (Text × Text)
snapshot = (text "Http_Proxy", text "y") ∷ (text "PATH", text "z") ∷ []

abbrev plan : EnvironmentPlan
plan = record { remove = removals snapshot; set = (text "LANG", plain (text "C")) ∷ [] }

is_planned : plan_environment host_only in_force snapshot ≡ ok plan
unfolding plan_environment is_proxy proxy_mode_of get
is_planned = refl

in_force_named : AllNamed in_force
unfolding parse_name well_formed is_reserved canonical
in_force_named = (tt, ((text "HTTP_PROXY", refl), ((text "LANG", refl), tt)))

plan_clears_example :
    (all_removed plan.remove snapshot ≡ true)
    × (is_direct (proxy_mode_of in_force) ≡ true → no_proxies plan.set ≡ true)
plan_clears_example = plan_clears host_only in_force snapshot plan in_force_named is_planned
