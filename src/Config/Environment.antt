-- ===== src/Config/Environment.antt =====
-- crates/core/src/config/environment.rs: which variables a process is started with. Names are
-- texts, a set is a list and a map is a list of entries, without the order of their keys.
pub mod Proxies
use remote_codex.Base.{
  ℕ, Bool, true, false, not, ◌&&◌, ◌||◌, Option, none, some, List, [], ◌∷◌, Result, ok, err,
  if◌then◌else◌, is_some, map, ◌++◌,
}
use remote_codex.Config.{ConfigError, conflicting_proxy_aliases, ProxyMode, inherit, custom, direct}
use remote_codex.Config.Text.{Text, text_eq, one_of, lower, upper}
use remote_codex.Config.Keys.{ConfigKey, environment, proxy_names, is_proxy, parse_name}
use remote_codex.Config.Values.{ConfigValue, plain, Url, parse_value}
use remote_codex.Config.Layers.{get, value_eq}
use remote_codex.Config.Resolve.{EffectiveSetting, EffectiveConfig, proxy_mode_of, is_direct}

pub record EnvironmentPlan : Type 0 where
  pub remove : List Text
  pub set : List (Text × ConfigValue)

abbrev find : Text → List (Text × ConfigValue) → Option ConfigValue
find name [] = none
find name ((other, v) ∷ rest) = if text_eq other name then some v else find name rest

-- `BTreeMap::insert`
abbrev pub assign : Text → ConfigValue → List (Text × ConfigValue) → List (Text × ConfigValue)
assign name value [] = (name, value) ∷ []
assign name value ((other, v) ∷ rest) =
    let later = assign name value rest in
    if text_eq other name then (name, value) ∷ rest else (other, v) ∷ later

abbrev pub names_alias : Text → Bool
names_alias name = one_of proxy_names (lower name)

abbrev both_cases : List Text → List Text
both_cases [] = []
both_cases (name ∷ rest) = name ∷ upper name ∷ both_cases rest

-- Every alias in both of its cases, and those that the remote snapshot has in another.
abbrev pub removals : List (Text × Text) → List Text
removals [] = both_cases proxy_names
removals ((name, value) ∷ rest) =
    let others = removals rest in if names_alias name then name ∷ others else others

abbrev differs : ConfigValue → Option ConfigValue → Bool
differs value none = false
differs value (some previous) = not (value_eq previous value)

abbrev is_empty : Text → Bool
is_empty [] = true
is_empty _ = false

abbrev added :
    Text
    → List (Text × ConfigValue)
    → Result ConfigError ConfigValue
    → Result ConfigError (List (Text × ConfigValue))
added name proxies (err e) = err e
added name proxies (ok value) =
    if differs value (find name proxies)
    then err conflicting_proxy_aliases
    else ok (assign name value proxies)

module _ (parse_url : Text → Option Url) (config : EffectiveConfig) where
  abbrev inherited :
      Text
      → List (Text × ConfigValue)
      → Result ConfigError Text
      → Result ConfigError (List (Text × ConfigValue))
  inherited raw proxies (err e) = err e
  inherited raw proxies (ok name) =
      if is_some (get (environment name) config)
      then ok proxies
      else added name proxies
          (if is_empty raw then ok (plain []) else parse_value parse_url (environment name) raw)

  abbrev next_inherited :
      (List (Text × ConfigValue) → Result ConfigError (List (Text × ConfigValue)))
      → Result ConfigError (List (Text × ConfigValue))
      → Result ConfigError (List (Text × ConfigValue))
  next_inherited rest (err e) = err e
  next_inherited rest (ok proxies) = rest proxies

  -- The aliases that the remote environment has, and no setting replaces.
  unfoldable pub inherit_all :
      List (Text × Text)
      → List (Text × ConfigValue)
      → Result ConfigError (List (Text × ConfigValue))
  inherit_all [] proxies = ok proxies
  inherit_all ((raw_name, raw) ∷ rest) proxies =
      if names_alias raw_name
      then next_inherited (inherit_all rest) (inherited raw proxies (parse_name raw_name))
      else inherit_all rest proxies

abbrev pub inherits : ProxyMode → Bool
inherits inherit = true
inherits _ = false

abbrev pub variable_of : ConfigKey → Option Text
variable_of (environment name) = some name
variable_of _ = none

-- One setting, onto the proxies and the other variables.
abbrev pub placed :
    ProxyMode
    → Option Text
    → ConfigValue
    → List (Text × ConfigValue) × List (Text × ConfigValue)
    → List (Text × ConfigValue) × List (Text × ConfigValue)
placed m none value found = found
placed m (some name) value (proxies, set) =
    if is_proxy name
    then (if is_direct m then proxies else assign name value proxies, set)
    else (proxies, assign name value set)

unfoldable pub overlay :
    ProxyMode
    → EffectiveConfig
    → List (Text × ConfigValue) × List (Text × ConfigValue)
    → List (Text × ConfigValue) × List (Text × ConfigValue)
overlay m [] found = found
overlay m ((key, setting) ∷ rest) found =
    overlay m rest (placed m (variable_of key) setting.value found)

abbrev pub spread :
    List (Text × ConfigValue) → List (Text × ConfigValue) → List (Text × ConfigValue)
spread [] set = set
spread ((name, value) ∷ rest) set = spread rest (assign (upper name) value (assign name value set))

abbrev pub planned :
    EffectiveConfig
    → List (Text × Text)
    → Result ConfigError (List (Text × ConfigValue))
    → Result ConfigError EnvironmentPlan
planned config remote (err e) = err e
planned config remote (ok proxies) =
    let both = overlay (proxy_mode_of config) config (proxies, []) in
    ok (record { remove = removals remote; set = spread both.0 both.1 })

unfoldable pub plan_environment :
    (Text → Option Url) → EffectiveConfig → List (Text × Text) → Result ConfigError EnvironmentPlan
unfolding inherit_all overlay
plan_environment parse_url config remote =
    planned config remote
      (if inherits (proxy_mode_of config) then inherit_all parse_url config remote [] else ok [])
