-- ===== src/Config/Values/Bounds.antt =====
-- What the settings' parsers of crates/core/src/config/value.rs let through.
use mathlib.Core.Path.{subst}
use remote_codex.Base.{
  ℕ, ◌≤◌, ◌≡◌, refl, Bool, true, false, ◌&&◌, ◌||◌, Option, none, some, [], ◌∷◌, Result, ok, err,
  if◌then◌else◌, leb, ltb, ◌==◌, any, all, arith,
}
use remote_codex.Config.{ConfigError, invalid_value, inherit, custom, direct}
use remote_codex.Config.Text.{Text, text, text_eq, one_of, is_digit, byte_length}
use remote_codex.Config.Keys.{
  ConfigKey, background, disconnect_grace_seconds, reconnect_max_attempts, environment, proxy_mode,
  execution_mode, ssh_host, ssh_user, ssh_port,
}
use remote_codex.Config.Values.{
  ConfigValue, boolean, integer, plain, mode, secret, ValueKind, a_boolean, grace_seconds,
  retry_attempts, an_execution_mode, a_variable, a_proxy_mode, identity, spec, Url, bounded,
  parse_u16, digits_value, parse_kind, parse_value, proxy_setting,
}

-- The values that a setting of this kind has.
abbrev pub Admits : ValueKind → ConfigValue → Type 0
Admits a_boolean (boolean b) = Unit
Admits grace_seconds (integer n) = n ≤ 3600
Admits retry_attempts (integer n) = (1 ≤ n) × (n ≤ 65535)
Admits an_execution_mode (plain t) = one_of (text "sandboxed" ∷ text "unrestricted" ∷ []) t ≡ true
Admits a_variable (plain t) = Unit
Admits a_proxy_mode (mode m) = Unit
Admits _ _ = ⊥

abbrev pub Parsed : ValueKind → Result ConfigError ConfigValue → Type 0
Parsed kind (ok v) = Admits kind v
Parsed kind (err e) = Unit

if_Parsed :
    (kind : ValueKind) (b : Bool) (x y : Result ConfigError ConfigValue)
    → (b ≡ true → Parsed kind x)
    → Parsed kind y
    → Parsed kind (if b then x else y)
if_Parsed kind true x y p q = p refl
if_Parsed kind false x y p q = q

parse_u16_small : (raw : Text) (n : ℕ) → parse_u16 raw ≡ some n → n ≤ 65535
parse_u16_small [] n e = absurd (cc)
parse_u16_small (c ∷ t) n e = small (all is_digit (c ∷ t)) (digits_value 0 (c ∷ t)) e
  where
    small : (d : Bool) (v : ℕ) → (if d && leb v 65535 then some v else none) ≡ some n → n ≤ 65535
    small d v e = ground arith

bounded-Parsed :
    (kind : ValueKind) (accepts : ℕ → Bool) (o : Option ℕ)
    → ((n : ℕ) → o ≡ some n → accepts n ≡ true → Admits kind (integer n))
    → Parsed kind (bounded accepts o)
bounded-Parsed kind accepts none p = tt
bounded-Parsed kind accepts (some n) p =
    if_Parsed kind (accepts n) (ok (integer n)) (err invalid_value) (p n refl) tt

module _ (parse_url : Text → Option Url) where
  parse_kind-Parsed :
      (kind : ValueKind) (key : ConfigKey) (raw : Text)
      → Parsed kind (parse_kind parse_url kind key raw)
  parse_kind-Parsed a_boolean key raw =
      if_Parsed a_boolean (text_eq raw (text "true")) (ok (boolean true)) _ (λ e. tt)
        (if_Parsed a_boolean (text_eq raw (text "false")) (ok (boolean false)) (err invalid_value)
          (λ e. tt) tt)
  parse_kind-Parsed grace_seconds key raw =
      bounded-Parsed grace_seconds (λ n. leb n 3600) (parse_u16 raw) (λ n e f. ground arith)
  parse_kind-Parsed retry_attempts key raw =
      bounded-Parsed retry_attempts (λ n. ltb 0 n) (parse_u16 raw)
        (λ n e f. (ground arith, parse_u16_small raw n e))
  parse_kind-Parsed an_execution_mode key raw =
      if_Parsed an_execution_mode (one_of (text "sandboxed" ∷ text "unrestricted" ∷ []) raw)
        (ok (plain raw)) (err invalid_value) (λ e. e) tt
  parse_kind-Parsed a_variable (environment name) raw =
      if_Parsed a_variable (proxy_setting parse_url name raw) (ok (plain raw)) (err invalid_value)
        (λ e. tt) tt
  parse_kind-Parsed a_variable background raw = tt
  parse_kind-Parsed a_variable disconnect_grace_seconds raw = tt
  parse_kind-Parsed a_variable reconnect_max_attempts raw = tt
  parse_kind-Parsed a_variable proxy_mode raw = tt
  parse_kind-Parsed a_variable execution_mode raw = tt
  parse_kind-Parsed a_variable ssh_host raw = tt
  parse_kind-Parsed a_variable ssh_user raw = tt
  parse_kind-Parsed a_variable ssh_port raw = tt
  parse_kind-Parsed a_proxy_mode key raw =
      if_Parsed a_proxy_mode (text_eq raw (text "inherit")) (ok (mode inherit)) _ (λ e. tt)
        (if_Parsed a_proxy_mode (text_eq raw (text "custom")) (ok (mode custom)) _ (λ e. tt)
          (if_Parsed a_proxy_mode (text_eq raw (text "direct")) (ok (mode direct))
            (err invalid_value) (λ e. tt) tt))
  parse_kind-Parsed identity key raw = tt

  pub parse_value-Parsed :
      (key : ConfigKey) (raw : Text) → Parsed (spec key).kind (parse_value parse_url key raw)
  unfolding parse_value
  parse_value-Parsed key raw =
      either_way (ltb 32768 (byte_length raw) || any (λ c. c == 0) raw)
        (parse_kind-Parsed (spec key).kind key raw)
    where
      either_way :
          (b : Bool)
          → Parsed (spec key).kind (parse_kind parse_url (spec key).kind key raw)
          → Parsed
              (spec key).kind
              (if b then err invalid_value else parse_kind parse_url (spec key).kind key raw)
      either_way true p = tt
      either_way false p = p

  -- A value that is parsed for a setting is of the setting's kind and within its bounds: at most
  -- 3600 seconds of grace, 1 to 65535 attempts, and only the two modes of execution.
  pub parse_value-Admits :
      (key : ConfigKey) (raw : Text) (v : ConfigValue)
      → parse_value parse_url key raw ≡ ok v
      → Admits (spec key).kind v
  parse_value-Admits key raw v e = subst (Parsed (spec key).kind) e (parse_value-Parsed key raw)

-- A text is kept as it was given.
abbrev pub SameText : Text → Result ConfigError ConfigValue → Type 0
SameText raw (ok (plain t)) = t ≡ raw
SameText raw (ok (boolean b)) = Unit
SameText raw (ok (integer n)) = Unit
SameText raw (ok (mode m)) = Unit
SameText raw (ok (secret r)) = Unit
SameText raw (err e) = Unit

if_SameText :
    (raw : Text) (b : Bool) (x y : Result ConfigError ConfigValue)
    → SameText raw x
    → SameText raw y
    → SameText raw (if b then x else y)
if_SameText raw true x y p q = p
if_SameText raw false x y p q = q

bounded-SameText :
    (raw : Text) (accepts : ℕ → Bool) (o : Option ℕ) → SameText raw (bounded accepts o)
bounded-SameText raw accepts none = tt
bounded-SameText raw accepts (some n) =
    if_SameText raw (accepts n) (ok (integer n)) (err invalid_value) tt tt

module _ (parse_url : Text → Option Url) where
  parse_kind-SameText :
      (kind : ValueKind) (key : ConfigKey) (raw : Text)
      → SameText raw (parse_kind parse_url kind key raw)
  parse_kind-SameText a_boolean key raw =
      if_SameText raw (text_eq raw (text "true")) (ok (boolean true)) _ tt (
        if_SameText raw (text_eq raw (text "false")) (ok (boolean false)) (err invalid_value) tt tt)
  parse_kind-SameText grace_seconds key raw = bounded-SameText raw (λ n. leb n 3600) (parse_u16 raw)
  parse_kind-SameText retry_attempts key raw = bounded-SameText raw (λ n. ltb 0 n) (parse_u16 raw)
  parse_kind-SameText an_execution_mode key raw =
      if_SameText raw (one_of (text "sandboxed" ∷ text "unrestricted" ∷ []) raw) (ok (plain raw))
        (err invalid_value) refl tt
  parse_kind-SameText a_variable (environment name) raw =
      if_SameText raw (proxy_setting parse_url name raw) (ok (plain raw)) (err invalid_value) refl
        tt
  parse_kind-SameText a_variable background raw = refl
  parse_kind-SameText a_variable disconnect_grace_seconds raw = refl
  parse_kind-SameText a_variable reconnect_max_attempts raw = refl
  parse_kind-SameText a_variable proxy_mode raw = refl
  parse_kind-SameText a_variable execution_mode raw = refl
  parse_kind-SameText a_variable ssh_host raw = refl
  parse_kind-SameText a_variable ssh_user raw = refl
  parse_kind-SameText a_variable ssh_port raw = refl
  parse_kind-SameText a_proxy_mode key raw =
      if_SameText raw (text_eq raw (text "inherit")) (ok (mode inherit)) _ tt (
        if_SameText raw (text_eq raw (text "custom")) (ok (mode custom)) _ tt (
          if_SameText raw (text_eq raw (text "direct")) (ok (mode direct)) (err invalid_value) tt
            tt))
  parse_kind-SameText identity key raw = tt

  pub parse_value-SameText :
      (key : ConfigKey) (raw : Text) → SameText raw (parse_value parse_url key raw)
  unfolding parse_value
  parse_value-SameText key raw =
      if_SameText raw (ltb 32768 (byte_length raw) || any (λ c. c == 0) raw) (err invalid_value)
        (parse_kind parse_url (spec key).kind key raw) tt
        (parse_kind-SameText (spec key).kind key raw)
