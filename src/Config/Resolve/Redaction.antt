-- ===== src/Config/Resolve/Redaction.antt =====
-- What is shown of the settings in force (crates/core/src/config/resolve.rs and value.rs).
use mathlib.Core.Path.{subst}
use remote_codex.Base.{
  ◌≡◌, refl, sym, ap, ◌∙◌, Bool, true, false, Option, none, some, List, [], ◌∷◌, ok, if◌then◌else◌,
}
use remote_codex.Config.Text.{Text}
use remote_codex.Config.Keys.{
  ConfigKey, background, disconnect_grace_seconds, reconnect_max_attempts, environment, proxy_mode,
  execution_mode, ssh_host, ssh_user, ssh_port, key_eq,
}
use remote_codex.Config.Values.{
  ConfigValue, boolean, integer, plain, mode, secret, spec, Url, requires_secret,
}
use remote_codex.Config.Layers.{StoredSetting, ConfigLayer, get, Edit, edits}
use remote_codex.Config.Layers.Secrets.{IsKept, AllKept, key_eq_sound, edits_keep}
use remote_codex.Config.Layers.Distinct.{edits-distinct}
use remote_codex.Config.Resolve.{
  EffectiveSetting, EffectiveConfig, VisibleValue, text_value, visible, setting_view, resolve,
}
use remote_codex.Config.Resolve.Overrides.{in_force, default_of, resolve_overrides}

-- A text that may be shown.
abbrev Open : ConfigKey → ConfigValue → Type 0
Open key (plain t) = requires_secret key t ≡ false
Open key (boolean b) = Unit
Open key (integer n) = Unit
Open key (mode m) = Unit
Open key (secret r) = Unit

IsKept-Open : (key : ConfigKey) (v : ConfigValue) → IsKept key v → Open key v
IsKept-Open key (plain t) kept = kept.1
IsKept-Open key (boolean b) kept = tt
IsKept-Open key (integer n) kept = tt
IsKept-Open key (mode m) kept = tt
IsKept-Open key (secret r) kept = tt

abbrev OpenSetting : ConfigKey → Option EffectiveSetting → Type 0
OpenSetting key none = Unit
OpenSetting key (some setting) = Open key setting.value

abbrev OpenStored : ConfigKey → Option StoredSetting → Type 0
OpenStored key none = Unit
OpenStored key (some setting) = Open key setting.value

get-Open : (key : ConfigKey) (layer : ConfigLayer) → AllKept layer → OpenStored key (get key layer)
unfolding get
get-Open key [] kept = tt
get-Open key ((k, setting) ∷ rest) kept = by_test (key_eq k key) refl (get-Open key rest kept.1)
  where
    by_test :
        (b : Bool)
        → key_eq k key ≡ b
        → OpenStored key (get key rest)
        → OpenStored key (if b then some setting else get key rest)
    by_test true e later =
        IsKept-Open key setting.value
          (subst (λ x. IsKept x setting.value) (key_eq_sound k key e) kept.0)
    by_test false e later = later

default-Open : (key : ConfigKey) → OpenSetting key (default_of (spec key).default)
unfolding requires_secret
default-Open background = tt
default-Open disconnect_grace_seconds = tt
default-Open reconnect_max_attempts = tt
default-Open (environment name) = tt
default-Open proxy_mode = tt
default-Open execution_mode = refl
default-Open ssh_host = tt
default-Open ssh_user = tt
default-Open ssh_port = tt

in_force-Open :
    (key : ConfigKey) (o : Option StoredSetting) (d : Option EffectiveSetting)
    → OpenStored key o
    → OpenSetting key d
    → OpenSetting key (in_force key o d)
in_force-Open key none d p q = q
in_force-Open key (some setting) d p q = p

shown-Open :
    (key : ConfigKey) (v : ConfigValue) (t : Text)
    → Open key v
    → visible v ≡ some (text_value t)
    → requires_secret key t ≡ false
shown-Open key (plain u) t p e = ap (requires_secret key) (ap shown (sym e)) ∙ p
  where
    shown : Option VisibleValue → Text
    shown (some (text_value x)) = x
    shown _ = u
shown-Open key (boolean b) t p e = absurd (cc)
shown-Open key (integer n) t p e = absurd (cc)
shown-Open key (mode m) t p e = absurd (cc)
shown-Open key (secret r) t p e = absurd (cc)

-- After any edits of an empty layer, if the settings resolve, the view of a setting in force shows
-- no text that should be a credential.
pub views_redacted :
    (parse_url : Text → Option Url) (l : List Edit) (config : EffectiveConfig) (key : ConfigKey)
    (setting : EffectiveSetting) (t : Text)
    → resolve (edits parse_url l []) ≡ ok config
    → get key config ≡ some setting
    → (setting_view config key setting).value ≡ some (text_value t)
    → requires_secret key t ≡ false
unfolding setting_view
views_redacted parse_url l config key setting t resolved found shown =
    let layer = edits parse_url l [] in
    shown-Open key setting.value t
      (subst (OpenSetting key)
        (sym (resolve_overrides layer config key (edits-distinct parse_url l [] refl) resolved)
          ∙ found)
        (in_force-Open key (get key layer) (default_of (spec key).default)
          (get-Open key layer (edits_keep parse_url l [] tt)) (default-Open key)))
      shown
