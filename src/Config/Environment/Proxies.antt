-- ===== src/Config/Environment/Proxies.antt =====
-- What a plan of crates/core/src/config/environment.rs does to the proxies of a process.
use mathlib.Core.Path.{subst}
use remote_codex.Base.{
  ◌≡◌, refl, sym, ap, All, Bool, true, false, not, ◌&&◌, ◌||◌, Option, none, some, List, [], ◌∷◌,
  Result, ok, err, if◌then◌else◌, all, arith,
}
use remote_codex.Config.{
  ConfigError, invalid_environment_name, reserved_environment, ProxyMode, inherit, custom, direct,
}
use remote_codex.Config.Text.{Text, text_eq, one_of, lower}
use remote_codex.Config.Keys.{
  is_proxy, proxy_names, well_formed, is_reserved, canonical, parse_name,
}
use remote_codex.Config.Layers.Distinct.{text_eq_refl}
use remote_codex.Config.Values.{ConfigValue, Url}
use remote_codex.Config.Resolve.{EffectiveConfig, proxy_mode_of, is_direct}
use remote_codex.Config.Environment.{
  EnvironmentPlan, assign, names_alias, removals, inherits, variable_of, placed, overlay, spread,
  planned, plan_environment,
}

abbrev plan_in : EnvironmentPlan → Result ConfigError EnvironmentPlan → EnvironmentPlan
plan_in other (ok plan) = plan
plan_in other (err e) = other

abbrev proxies_in :
    List (Text × ConfigValue)
    → Result ConfigError (List (Text × ConfigValue))
    → List (Text × ConfigValue)
proxies_in other (ok proxies) = proxies
proxies_in other (err e) = other

-- Each of these variables that is a proxy in any case is one of the names.
abbrev pub all_removed : List Text → List (Text × Text) → Bool
all_removed names remote =
    all (λ (v : Text × Text). not (names_alias v.0) || one_of names v.0) remote

-- None of these variables is a proxy, in any case of its letters.
abbrev pub no_proxies : List (Text × ConfigValue) → Bool
no_proxies set = all (λ (v : Text × ConfigValue). not (names_alias v.0)) set

removed_more :
    (name : Text) (names : List Text) (remote : List (Text × Text))
    → all_removed names remote ≡ true
    → all_removed (name ∷ names) remote ≡ true
removed_more name names [] h = refl
removed_more name names ((other, v) ∷ remote) h =
    both (names_alias other) (one_of names other) (text_eq other name) _ _ h
      (removed_more name names remote)
  where
    both :
        (a b c d e : Bool)
        → ((not a || b) && d) ≡ true
        → (d ≡ true → e ≡ true)
        → ((not a || (c || b)) && e) ≡ true
    both a b c d e h k = ground arith

removals_all : (remote : List (Text × Text)) → all_removed (removals remote) remote ≡ true
removals_all [] = refl
removals_all ((name, v) ∷ remote) = by_alias (names_alias name) refl (removals_all remote)
  where
    by_alias :
        (b : Bool)
        → names_alias name ≡ b
        → all_removed (removals remote) remote ≡ true
        → all_removed (if b then name ∷ removals remote else removals remote) ((name, v) ∷ remote)
          ≡ true
    by_alias true is h = rw (is, text_eq_refl name) (removed_more name (removals remote) remote h)
    by_alias false other h = rw other h

no_proxies-assign :
    (name : Text) (value : ConfigValue) (set : List (Text × ConfigValue))
    → names_alias name ≡ false
    → no_proxies set ≡ true
    → no_proxies (assign name value set) ≡ true
no_proxies-assign name value [] free h = rw free refl
no_proxies-assign name value ((other, v) ∷ set) free h =
    by_name (text_eq other name) (no_proxies-assign name value set free)
  where
    second : (a b : Bool) → (a && b) ≡ true → b ≡ true
    second a b h = ground arith

    first : (a b : Bool) → (a && b) ≡ true → a ≡ true
    first a b h = ground arith

    by_name :
        (b : Bool)
        → (no_proxies set ≡ true → no_proxies (assign name value set) ≡ true)
        → no_proxies (if b then (name, value) ∷ set else (other, v) ∷ assign name value set) ≡ true
    by_name true later = rw free (second (not (names_alias other)) _ h)
    by_name false later =
        rw (first (not (names_alias other)) _ h) (later (second (not (names_alias other)) _ h))

-- A name that `EnvironmentName::parse` gives.
abbrev pub Named : Option Text → Type 0
Named none = Unit {0}
Named (some name) = (raw : Text) × (parse_name raw ≡ ok name)

-- The parser writes a proxy in lower case.
parsed_plain :
    (raw name : Text) → parse_name raw ≡ ok name → is_proxy name ≡ false → names_alias name ≡ false
unfolding parse_name canonical is_proxy
parsed_plain raw name parsed free =
    by_tests (well_formed raw) (is_reserved raw) (names_alias raw) refl parsed
  where
    value : (a : Text) → ◌≡◌ {A = Result ConfigError Text} (ok a) (ok name) → a ≡ name
    value a p = ap (λ r. elim r [ ok x ↦ x | err f ↦ a ]) p

    apart : {b : Bool} → b ≡ true → b ≡ false → ⊥
    apart p q = cc

    by_tests :
        (w r p : Bool)
        → names_alias raw ≡ p
        → (if not w
            then err invalid_environment_name
            else if r
            then err reserved_environment
            else ok (if p then lower raw else raw))
          ≡ ok name
        → names_alias name ≡ false
    by_tests false r p is f = absurd (cc)
    by_tests true true p is f = absurd (cc)
    by_tests true false true is f =
        absurd
          (apart is (subst (λ t. one_of proxy_names t ≡ false) (sym (value (lower raw) f)) free))
    by_tests true false false is f = subst (λ t. names_alias t ≡ false) (value raw f) is

abbrev Clear : List (Text × ConfigValue) × List (Text × ConfigValue) → Type 0
Clear found = (found.0 ≡ []) × (no_proxies found.1 ≡ true)

placed-Clear :
    (m : ProxyMode) (variable : Option Text) (value : ConfigValue)
    (found : List (Text × ConfigValue) × List (Text × ConfigValue))
    → is_direct m ≡ true
    → Named variable
    → Clear found
    → Clear (placed m variable value found)
placed-Clear m none value found is named h = h
placed-Clear m (some name) value (proxies, set) is (raw, parsed) h = by_proxy (is_proxy name) refl
  where
    by_proxy :
        (b : Bool)
        → is_proxy name ≡ b
        → Clear (
            if b
            then (if is_direct m then proxies else assign name value proxies, set)
            else (proxies, assign name value set))
    by_proxy true proxy = rw is h
    by_proxy false free =
        (h.0, no_proxies-assign name value set (parsed_plain raw name parsed free) h.1)

-- The variables of a configuration have names that the parser gives.
abbrev pub AllNamed : EffectiveConfig → Type 0
AllNamed config = All (λ e. Named (variable_of e.0)) config

-- With no proxies the settings add none.
overlay-Clear :
    (m : ProxyMode) (config : EffectiveConfig)
    (found : List (Text × ConfigValue) × List (Text × ConfigValue))
    → is_direct m ≡ true
    → AllNamed config
    → Clear found
    → Clear (overlay m config found)
unfolding overlay
overlay-Clear m [] found is named h = h
overlay-Clear m ((key, setting) ∷ rest) found is named h =
    overlay-Clear m rest (placed m (variable_of key) setting.value found) is named.1
      (placed-Clear m (variable_of key) setting.value found is named.0 h)

not_inherited : (m : ProxyMode) → is_direct m ≡ true → inherits m ≡ false
not_inherited inherit is = absurd (cc)
not_inherited custom is = absurd (cc)
not_inherited direct is = refl

no_proxies-spread :
    (proxies set : List (Text × ConfigValue))
    → proxies ≡ []
    → no_proxies set ≡ true
    → no_proxies (spread proxies set) ≡ true
no_proxies-spread [] set none_left h = h
no_proxies-spread (p ∷ proxies) set none_left h = absurd (cc)

-- The result of a plan, whichever its proxies are.
planned_lem :
    (config : EffectiveConfig) (remote : List (Text × Text)) (plan : EnvironmentPlan)
    (r : Result ConfigError (List (Text × ConfigValue)))
    → AllNamed config
    → planned config remote r ≡ ok plan
    → (is_direct (proxy_mode_of config) ≡ true → r ≡ ok [])
    → (all_removed plan.remove remote ≡ true)
      × (is_direct (proxy_mode_of config) ≡ true → no_proxies plan.set ≡ true)
planned_lem config remote plan (err e) named same empty = absurd (cc)
planned_lem config remote plan (ok proxies) named same empty =
    subst
      (λ (p : EnvironmentPlan).
        (all_removed p.remove remote ≡ true)
        × (is_direct (proxy_mode_of config) ≡ true → no_proxies p.set ≡ true))
      (ap (plan_in plan) same)
      (
        removals_all remote,
        λ is.
            let clear =
              overlay-Clear (proxy_mode_of config) config (proxies, []) is named
                (ap (proxies_in []) (empty is), refl) in
            no_proxies-spread _ _ clear.0 clear.1,
      )

-- A plan that is made of variables with names that the parser gives removes each variable of the
-- remote environment that names a proxy, in any case of its letters; and where the proxy mode is
-- direct, it sets no variable that names a proxy in any case of its letters.
pub plan_clears :
    (parse_url : Text → Option Url) (config : EffectiveConfig) (remote : List (Text × Text))
    (plan : EnvironmentPlan)
    → AllNamed config
    → plan_environment parse_url config remote ≡ ok plan
    → (all_removed plan.remove remote ≡ true)
      × (is_direct (proxy_mode_of config) ≡ true → no_proxies plan.set ≡ true)
unfolding plan_environment
plan_clears parse_url config remote plan named same =
    planned_lem config remote plan _ named same
      (λ is. rw (not_inherited (proxy_mode_of config) is) refl)
