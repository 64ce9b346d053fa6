-- ===== src/Connections/Again.antt =====
-- A target that was parsed is valid when it is read again: crates/core/src/connection.rs.
use mathlib.Core.Path.{subst}
use remote_codex.Base.{
  ℕ, ◌≡◌, refl, ap, ◌∙◌, Bool, true, false, Option, none, some, [], ◌∷◌, ◌++◌, Result, ok, err,
  if◌then◌else◌, arith,
}
use remote_codex.Config.Text.{Text}
use remote_codex.Config.Layers.Distinct.{text_eq_refl}
use remote_codex.Connections.{
  EndpointError, invalid_target, invalid_port, SshEndpoint, valid_word, split_once, unbracket,
  has_colon, no_port, same_port, named_host, bracketed, parse_host, endpoint, parse_parts, parse,
  validate, or_invalid,
}
use remote_codex.Connections.Words.{
  all_host, has_at, shown, all_host-has_at, has_at-append, split_none, split_user,
  strip_last-append, unbracket-none, all_word-all_host, word_codes,
}

abbrev text_in : Text → Result EndpointError Text → Text
text_in other (ok t) = t
text_in other (err e) = other

same_text : (a b : Text) → ◌≡◌ {A = Result EndpointError Text} (ok a) (ok b) → a ≡ b
same_text a b same = ap (text_in a) same

abbrev endpoint_in : SshEndpoint → Result EndpointError SshEndpoint → SshEndpoint
endpoint_in other (ok e) = e
endpoint_in other (err x) = other

same_endpoint :
    (a b : SshEndpoint) → ◌≡◌ {A = Result EndpointError SshEndpoint} (ok a) (ok b) → a ≡ b
same_endpoint a b same = ap (endpoint_in a) same

abbrev all_words : Option Text → Bool
all_words none = true
all_words (some user) = valid_word user

same_port_refl : (port : Option ℕ) → same_port port port ≡ true
same_port_refl none = refl
same_port_refl (some n) = ground arith

module _ (v6 address : Text → Option Text) where
  -- A host that is parsed again as it is.
  pub record Host (host : Text) : Type 0 where
    pub codes : all_host host ≡ true
    pub colon : has_colon host ≡ true → v6 host ≡ some host
    pub plain : has_colon host ≡ false → named_host v6 address host (address host) ≡ ok host

  pub record Printers : Type 0 where
    pub v6_codes : (t a : Text) → v6 t ≡ some a → (all_host a ≡ true) × (has_colon a ≡ true)
    pub v6_again : (t a : Text) → v6 t ≡ some a → v6 a ≡ some a
    pub address_codes : (t a : Text) → address t ≡ some a → all_host a ≡ true
    pub address_v6 : (t a : Text) → address t ≡ some a → has_colon a ≡ true → v6 a ≡ some a
    pub address_again : (t a : Text) → address t ≡ some a → address a ≡ some a

  shown_again : (host : Text) → Host host → parse_host v6 address (shown host) ≡ ok host
  shown_again host h = by_colon (has_colon host) refl
    where
      by_colon :
          (b : Bool)
          → has_colon host ≡ b
          → parse_host v6 address (if b then b'[' ∷ (host ++ (b']' ∷ [])) else host) ≡ ok host
      by_colon true is = rw (strip_last-append host, h.colon is) refl
      by_colon false is = rw (unbracket-none host h.codes) (h.plain is)

  shown-has_at : (host : Text) → all_host host ≡ true → has_at (shown host) ≡ false
  shown-has_at host h = by_colon (has_colon host)
    where
      by_colon : (b : Bool) → has_at (if b then b'[' ∷ (host ++ (b']' ∷ [])) else host) ≡ false
      by_colon true = has_at-append host (b']' ∷ []) (all_host-has_at host h) refl
      by_colon false = all_host-has_at host h

  module _ (p : Printers) where
    word-Host : (host : Text) → address host ≡ none → valid_word host ≡ true → Host host
    word-Host host unknown word =
        let codes = all_word-all_host host (word_codes host word) in
        record {
          codes = codes.0;
          colon = λ is. absurd (clash (has_colon host) is codes.1);
          plain = λ no_colon. rw (unknown, word) refl;
        }
      where
        clash : (b : Bool) → b ≡ true → b ≡ false → ⊥
        clash b is other = cc

    printed-Host : (t host : Text) → address t ≡ some host → Host host
    printed-Host t host printed = record {
      codes = p.address_codes t host printed;
      colon = p.address_v6 t host printed;
      plain = λ no_colon. rw (p.address_again t host printed) refl;
    }

    v6-Host : (t host : Text) → v6 t ≡ some host → Host host
    v6-Host t host printed = record {
      codes = (p.v6_codes t host printed).0;
      colon = λ is. p.v6_again t host printed;
      plain = λ no_colon. absurd (clash (has_colon host) (p.v6_codes t host printed).1 no_colon);
    }
      where
        clash : (b : Bool) → b ≡ true → b ≡ false → ⊥
        clash b is other = cc

    named_lem :
        (t host : Text) (found : Option Text)
        → address t ≡ found
        → named_host v6 address t found ≡ ok host
        → Host host
    named_lem t host (some a) printed same =
        printed-Host t host (printed ∙ ap some (same_text a host same))
    named_lem t host none unknown same = by_word (valid_word t) refl same
      where
        by_word :
            (b : Bool)
            → valid_word t ≡ b
            → (if b then ok t else err invalid_target) ≡ ok host
            → Host host
        by_word true word same = subst Host (same_text t host same) (word-Host t unknown word)
        by_word false other same = absurd (cc)

    bracketed_lem :
        (t host : Text) (inner : Option Text) → bracketed v6 address t inner ≡ ok host → Host host
    bracketed_lem t host none same = named_lem t host (address t) refl same
    bracketed_lem t host (some inner) same = by_v6 (v6 inner) refl same
      where
        by_v6 :
            (found : Option Text)
            → v6 inner ≡ found
            → or_invalid v6 address found ≡ ok host
            → Host host
        by_v6 none unknown same = absurd (cc)
        by_v6 (some a) printed same = v6-Host inner host (printed ∙ ap some (same_text a host same))

    valid_again :
        (host : Text) (user : Option Text) (port : Option ℕ)
        → Host host
        → all_words user ≡ true
        → no_port port ≡ false
        → validate v6 address (record { host = host; user = user; port = port }) ≡ ok tt
    unfolding validate parse
    valid_again host none port h words some_port =
        rw
          (
            some_port,
            split_none (shown host) (shown-has_at host h.codes),
            shown_again host h,
            text_eq_refl host,
            same_port_refl port,
          )
          refl
    valid_again host (some user) port h words some_port =
        rw
          (
            some_port,
            split_user user (shown host)
                (all_host-has_at user (all_word-all_host user (word_codes user words)).0),
            words,
            shown_again host h,
            text_eq_refl host,
            text_eq_refl user,
            same_port_refl port,
          )
          refl

    -- What becomes of the host that was read.
    endpoint_lem :
        (user : Option Text) (port : Option ℕ) (t : Text) (e : SshEndpoint)
        → all_words user ≡ true
        → no_port port ≡ false
        → endpoint v6 address user port (parse_host v6 address t) ≡ ok e
        → validate v6 address e ≡ ok tt
    endpoint_lem user port t e words some_port same = by_host (parse_host v6 address t) refl same
      where
        by_host :
            (r : Result EndpointError Text)
            → parse_host v6 address t ≡ r
            → endpoint v6 address user port r ≡ ok e
            → validate v6 address e ≡ ok tt
        by_host (err x) bad same = absurd (cc)
        by_host (ok host) good same =
            subst (λ e. validate v6 address e ≡ ok tt) (same_endpoint _ e same)
              (valid_again host user port (bracketed_lem t host (unbracket t) good) words some_port)

    -- A target that is accepted gives an endpoint that is accepted again from its own destination,
    -- if the printed addresses are read as they are, IPv6 ones with a colon, in the characters of
    -- words and colons.
    pub parsed_validates :
        (target : Text) (port : Option ℕ) (e : SshEndpoint)
        → parse v6 address target port ≡ ok e
        → validate v6 address e ≡ ok tt
    unfolding parse
    parsed_validates target port e same = by_port (no_port port) refl same
      where
        by_word :
            (user host : Text) (b : Bool)
            → valid_word user ≡ b
            → no_port port ≡ false
            → (if b
                then endpoint v6 address (some user) port (parse_host v6 address host)
                else err invalid_target)
              ≡ ok e
            → validate v6 address e ≡ ok tt
        by_word user host true word some_port same =
            endpoint_lem (some user) port host e word some_port same
        by_word user host false other some_port same = absurd (cc)

        by_parts :
            (parts : Option (Text × Text))
            → no_port port ≡ false
            → parse_parts v6 address target port parts ≡ ok e
            → validate v6 address e ≡ ok tt
        by_parts none some_port same = endpoint_lem none port target e refl some_port same
        by_parts (some (user, host)) some_port same =
            by_word user host (valid_word user) refl some_port same

        by_port :
            (b : Bool)
            → no_port port ≡ b
            → (if b
                then err invalid_port
                else parse_parts v6 address target port (split_once target))
              ≡ ok e
            → validate v6 address e ≡ ok tt
        by_port true is same = absurd (cc)
        by_port false some_port same = by_parts (split_once target) some_port same
