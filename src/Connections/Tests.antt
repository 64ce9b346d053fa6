-- ===== src/Connections/Tests.antt =====
-- A target of crates/core/src/connection.rs with one address of IPv6.
use remote_codex.Base.{◌≡◌, refl, sym, ap, Bool, true, false, Option, none, some, ok, if◌then◌else◌}
use mathlib.Core.Path.{subst}
use remote_codex.Config.Text.{Text, text, text_eq}
use remote_codex.Connections.{SshEndpoint, has_colon, parse, validate}
use remote_codex.Connections.Words.{all_host}
use remote_codex.Connections.Again.{Printers, parsed_validates}

abbrev loopback : Text
loopback = text "::1"

-- The address is known in two spellings.
abbrev v6 : Text → Option Text
v6 t =
    if text_eq t loopback
    then some loopback
    else if text_eq t (text "0::1")
    then some loopback
    else none

v6-loopback : (t a : Text) → v6 t ≡ some a → a ≡ loopback
v6-loopback t a = by_test (text_eq t loopback) (text_eq t (text "0::1"))
  where
    value_of : Option Text → Text
    value_of none = loopback
    value_of (some x) = x

    by_test :
        (b c : Bool)
        → (if b then some loopback else if c then some loopback else none) ≡ some a
        → a ≡ loopback
    by_test true c same = sym (ap value_of same)
    by_test false true same = sym (ap value_of same)
    by_test false false same = absurd (cc)

printers : Printers v6 v6
printers = record {
  v6_codes = λ t a same.
      subst (λ h. (all_host h ≡ true) × (has_colon h ≡ true)) (sym (v6-loopback t a same))
        (refl, refl);
  v6_again = λ t a same. subst (λ h. v6 h ≡ some h) (sym (v6-loopback t a same)) refl;
  address_codes = λ t a same. subst (λ h. all_host h ≡ true) (sym (v6-loopback t a same)) refl;
  address_v6 = λ t a same colon. subst (λ h. v6 h ≡ some h) (sym (v6-loopback t a same)) refl;
  address_again = λ t a same. subst (λ h. v6 h ≡ some h) (sym (v6-loopback t a same)) refl;
}

abbrev endpoint : SshEndpoint
endpoint = record { host = loopback; user = some (text "me"); port = some 22 }

is_parsed : parse v6 v6 (text "me@[0::1]") (some 22) ≡ ok endpoint
unfolding parse
is_parsed = refl

parsed_validates_example : validate v6 v6 endpoint ≡ ok tt
parsed_validates_example =
    parsed_validates v6 v6 printers (text "me@[0::1]") (some 22) endpoint is_parsed
