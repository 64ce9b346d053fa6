-- ===== src/Connections.antt =====
-- crates/core/src/connection.rs: the targets of SSH. Texts are lists of code points. The parsers of
-- an address of IPv6 and of any, with the address printed, are arguments.
pub mod Words
pub mod Again
mod Tests
use remote_codex.Base.{
  ℕ, Bool, true, false, not, ◌&&◌, ◌||◌, Option, none, some, List, [], ◌∷◌, ◌++◌, Result, ok, err,
  if◌then◌else◌, ltb, any, all, ◌==◌,
}
use remote_codex.Config.Text.{Text, text_eq, is_digit, is_letter, byte_length}

pub data EndpointError : Type 0 where
  invalid_target invalid_port invalid_name : EndpointError

pub record SshEndpoint : Type 0 where
  pub host : Text
  pub user : Option Text
  pub port : Option ℕ

abbrev pub word_code : ℕ → Bool
word_code c = is_letter c || (is_digit c || (c == b'.' || (c == b'_' || c == b'-')))

abbrev pub is_empty : Text → Bool
is_empty [] = true
is_empty _ = false

abbrev pub is_option : Text → Bool
is_option [] = false
is_option (c ∷ rest) = c == b'-'

abbrev pub valid_word : Text → Bool
valid_word word =
    not (is_empty word)
    && (not (ltb 253 (byte_length word)) && (not (is_option word) && all word_code word))

abbrev pub before : ℕ → Option (Text × Text) → Option (Text × Text)
before c none = none
before c (some (user, host)) = some (c ∷ user, host)

-- `split_once('@')`
abbrev pub split_once : Text → Option (Text × Text)
split_once [] = none
split_once (c ∷ rest) =
    let later = split_once rest in if c == b'@' then some ([], rest) else before c later

abbrev onto : ℕ → Option Text → Option Text
onto c none = none
onto c (some rest) = some (c ∷ rest)

-- `strip_suffix(']')`
abbrev pub strip_last : Text → Option Text
strip_last [] = none
strip_last (c ∷ []) = if c == b']' then some [] else none
strip_last (c ∷ d ∷ rest) = onto c (strip_last (d ∷ rest))

abbrev pub unbracket : Text → Option Text
unbracket [] = none
unbracket (c ∷ rest) = if c == b'[' then strip_last rest else none

abbrev pub has_colon : Text → Bool
has_colon host = any (λ c. c == b':') host

abbrev pub destination : SshEndpoint → Text
destination e =
    let host = if has_colon e.host then b'[' ∷ (e.host ++ (b']' ∷ [])) else e.host in
    elim e.user [ some user ↦ user ++ (b'@' ∷ host) | none ↦ host ]

abbrev pub no_port : Option ℕ → Bool
no_port none = false
no_port (some n) = n == 0

abbrev same_option : Option Text → Option Text → Bool
same_option none none = true
same_option (some a) (some b) = text_eq a b
same_option _ _ = false

abbrev pub same_port : Option ℕ → Option ℕ → Bool
same_port none none = true
same_port (some a) (some b) = a == b
same_port _ _ = false

abbrev pub endpoint_eq : SshEndpoint → SshEndpoint → Bool
endpoint_eq a b = text_eq a.host b.host && (same_option a.user b.user && same_port a.port b.port)

module _ (v6 address : Text → Option Text) where
  abbrev pub or_invalid : Option Text → Result EndpointError Text
  or_invalid none = err invalid_target
  or_invalid (some host) = ok host

  abbrev pub named_host : Text → Option Text → Result EndpointError Text
  named_host host (some printed) = ok printed
  named_host host none = if valid_word host then ok host else err invalid_target

  abbrev pub bracketed : Text → Option Text → Result EndpointError Text
  bracketed host (some inner) = or_invalid (v6 inner)
  bracketed host none = named_host host (address host)

  abbrev pub parse_host : Text → Result EndpointError Text
  parse_host host = bracketed host (unbracket host)

  abbrev pub endpoint :
      Option Text → Option ℕ → Result EndpointError Text → Result EndpointError SshEndpoint
  endpoint user port (err e) = err e
  endpoint user port (ok host) = ok (record { host = host; user = user; port = port })

  abbrev pub parse_parts : Text → Option ℕ → Option (Text × Text) → Result EndpointError SshEndpoint
  parse_parts target port none = endpoint none port (parse_host target)
  parse_parts target port (some (user, host)) =
      if valid_word user then endpoint (some user) port (parse_host host) else err invalid_target

  unfoldable pub parse : Text → Option ℕ → Result EndpointError SshEndpoint
  parse target port =
      if no_port port then err invalid_port else parse_parts target port (split_once target)

  abbrev pub confirmed :
      SshEndpoint → Result EndpointError SshEndpoint → Result EndpointError (Unit {0})
  confirmed e (err x) = err x
  confirmed e (ok parsed) = if endpoint_eq parsed e then ok tt else err invalid_target

  unfoldable pub validate : SshEndpoint → Result EndpointError (Unit {0})
  unfolding parse
  validate e = confirmed e (parse (destination e) e.port)
