-- ===== src/Connections/Words.antt =====
-- The characters of the targets of crates/core/src/connection.rs, and how they are cut.
use remote_codex.Base.{
  ℕ, ◌≡◌, refl, Bool, true, false, not, ◌&&◌, ◌||◌, Option, none, some, [], ◌∷◌, ◌++◌,
  if◌then◌else◌, any, all, ◌==◌, ltb, arith,
}
use remote_codex.Config.Text.{Text, byte_length}
use remote_codex.Connections.{
  is_empty, is_option, before, word_code, valid_word, split_once, strip_last, unbracket, has_colon,
}

-- The characters of a printed address, and of a word.
abbrev pub host_code : ℕ → Bool
host_code c = word_code c || c == b':'

abbrev pub all_host : Text → Bool
all_host host = all host_code host

abbrev pub has_at : Text → Bool
has_at t = any (λ c. c == b'@') t

abbrev pub shown : Text → Text
shown host = if has_colon host then b'[' ∷ (host ++ (b']' ∷ [])) else host

pub all_host-has_at : (t : Text) → all_host t ≡ true → has_at t ≡ false
all_host-has_at [] h = refl
all_host-has_at (c ∷ t) h = let rest = all_host-has_at t (ground arith) in ground arith

pub has_at-append : (s t : Text) → has_at s ≡ false → has_at t ≡ false → has_at (s ++ t) ≡ false
has_at-append [] t h k = k
has_at-append (c ∷ s) t h k = let rest = has_at-append s t (ground arith) k in ground arith

abbrev split_by : Bool → ℕ → Text → Option (Text × Text) → Option (Text × Text)
split_by b c t later = if b then some ([], t) else before c later

pub split_none : (t : Text) → has_at t ≡ false → split_once t ≡ none
split_none [] h = refl
split_none (c ∷ t) h = at_first (c == b'@') (ground arith) (split_none t (ground arith))
  where
    at_first : (b : Bool) → b ≡ false → split_once t ≡ none → split_by b c t (split_once t) ≡ none
    at_first true is later = absurd (cc)
    at_first false is later = rw later refl

pub split_user :
    (user host : Text)
    → has_at user ≡ false
    → split_once (user ++ (b'@' ∷ host)) ≡ some (user, host)
split_user [] host h = refl
split_user (c ∷ user) host h =
    at_first (c == b'@') (ground arith) (split_user user host (ground arith))
  where
    at_first :
        (b : Bool)
        → b ≡ false
        → split_once (user ++ (b'@' ∷ host)) ≡ some (user, host)
        → split_by b c (user ++ (b'@' ∷ host)) (split_once (user ++ (b'@' ∷ host)))
          ≡ some (c ∷ user, host)
    at_first true is later = absurd (cc)
    at_first false is later = rw later refl

pub strip_last-append : (t : Text) → strip_last (t ++ (b']' ∷ [])) ≡ some t
strip_last-append [] = refl
strip_last-append (c ∷ []) = refl
strip_last-append (c ∷ d ∷ t) = rw (strip_last-append (d ∷ t)) refl

pub unbracket-none : (t : Text) → all_host t ≡ true → unbracket t ≡ none
unbracket-none [] h = refl
unbracket-none (c ∷ t) h = at_first (c == b'[') (ground arith)
  where
    at_first : (b : Bool) → b ≡ false → (if b then strip_last t else none) ≡ none
    at_first true is = absurd (cc)
    at_first false is = refl

pub all_word-all_host :
    (t : Text) → all word_code t ≡ true → (all_host t ≡ true) × (has_colon t ≡ false)
all_word-all_host [] h = (refl, refl)
all_word-all_host (c ∷ t) h =
    let rest = all_word-all_host t (ground arith) in
    let hosts = rest.0 in let colons = rest.1 in (ground arith, ground arith)

pub word_codes : (w : Text) → valid_word w ≡ true → all word_code w ≡ true
word_codes w word =
    last_part (not (is_empty w)) (not (ltb 253 (byte_length w))) (not (is_option w)) _ word
  where
    last_part : (a b c d : Bool) → (a && (b && (c && d))) ≡ true → d ≡ true
    last_part a b c d h = ground arith
