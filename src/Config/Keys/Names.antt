-- ===== src/Config/Keys/Names.antt =====
-- The spelling of settings, crates/core/src/config/key.rs: what is parsed is printed to a name that
-- parses to the same.
use mathlib.Core.Path.{subst}
use remote_codex.Base.{
  ◌≡◌, refl, sym, ap, ◌∙◌, Bool, true, false, not, ◌||◌, Option, none, some, List, [], ◌∷◌, Result,
  ok, err, if◌then◌else◌, All, arith,
}
use remote_codex.Config.{ConfigError, invalid_environment_name, reserved_environment}
use remote_codex.Config.Text.{Text, text, text_eq, one_of, lower, strip_prefix}
use remote_codex.Config.Keys.{
  proxy_names, well_formed, is_reserved, canonical, parse_name, ConfigKey, environment, fixed_keys,
  find_key, as_environment, other_key, parse_key, key_name,
}

pub text_eq_sound : (a b : Text) → text_eq a b ≡ true → a ≡ b
text_eq_sound [] [] e = refl
text_eq_sound [] (b ∷ t) e = absurd (cc)
text_eq_sound (a ∷ s) [] e = absurd (cc)
text_eq_sound (a ∷ s) (b ∷ t) e = cons (ground arith) (text_eq_sound s t (ground arith))
  where
    cons : a ≡ b → s ≡ t → (a ∷ s) ≡ (b ∷ t)
    cons p q = ap (λ x. x ∷ s) p ∙ ap (◌∷◌ b) q

one_of_elim :
    (P : Text → Type 0) (names : List Text) (t : Text) → one_of names t ≡ true → All P names → P t
one_of_elim P [] t e all_P = absurd (cc)
one_of_elim P (n ∷ names) t e all_P =
    by_test (text_eq t n) refl
      (λ f. one_of_elim P names t (later (text_eq t n) (one_of names t) f e) all_P.1)
  where
    later : (a b : Bool) → a ≡ false → (a || b) ≡ true → b ≡ true
    later a b f e = ground arith

    by_test : (b : Bool) → text_eq t n ≡ b → (text_eq t n ≡ false → P t) → P t
    by_test true f next = subst P (sym (text_eq_sound t n f)) all_P.0
    by_test false f next = next f

-- A name that is kept by another parse.
abbrev Stable : Text → Type 0
Stable name = parse_name name ≡ ok name

proxy_names-Stable : All Stable proxy_names
unfolding parse_name well_formed is_reserved canonical
proxy_names-Stable = (refl, (refl, (refl, (refl, tt))))

parse_name-Stable : (n m : Text) → parse_name n ≡ ok m → Stable m
unfolding parse_name canonical
parse_name-Stable n m e =
    by_tests (well_formed n) (is_reserved n) (one_of proxy_names (lower n)) refl refl refl e
  where
    value : (a : Text) → ◌≡◌ {A = Result ConfigError Text} (ok a) (ok m) → a ≡ m
    value a p = ap (λ r. elim r [ ok x ↦ x | err f ↦ a ]) p

    answer : Bool → Bool → Bool → Result ConfigError Text
    answer w r p =
        if not w
        then err invalid_environment_name
        else if r
        then err reserved_environment
        else ok (if p then lower n else n)

    by_tests :
        (w r p : Bool)
        → well_formed n ≡ w
        → is_reserved n ≡ r
        → one_of proxy_names (lower n) ≡ p
        → answer w r p ≡ ok m
        → Stable m
    by_tests false r p a b c f = absurd (cc)
    by_tests true true p a b c f = absurd (cc)
    by_tests true false true a b c f =
        subst Stable (value (lower n) f)
          (one_of_elim Stable proxy_names (lower n) c proxy_names-Stable)
    by_tests true false false a b c f = subst Stable (value n f) (plain a b c)
      where
        plain :
            well_formed n ≡ true
            → is_reserved n ≡ false
            → one_of proxy_names (lower n) ≡ false
            → Stable n
        plain a b c = rw a (rw b (rw c refl))

-- A key that is kept by printing and parsing.
abbrev Kept : ConfigKey → Type 0
Kept k = parse_key (key_name k) ≡ ok k

fixed_keys-Kept : All (λ x. Kept x.1) fixed_keys
unfolding parse_key key_name
fixed_keys-Kept = (refl, (refl, (refl, (refl, (refl, (refl, (refl, (refl, tt))))))))

find_key_elim :
    (P : ConfigKey → Type 0) (t : Text) (l : List (Text × ConfigKey)) (k : ConfigKey)
    → find_key t l ≡ some k
    → All (λ x. P x.1) l
    → P k
find_key_elim P t [] k e all_P = absurd (cc)
find_key_elim P t ((name, key) ∷ rest) k e all_P =
    by_test (text_eq t name) e (λ f. find_key_elim P t rest k f all_P.1)
  where
    by_test :
        (b : Bool)
        → (if b then some key else find_key t rest) ≡ some k
        → (find_key t rest ≡ some k → P k)
        → P k
    by_test true f next = subst P (ap (λ o. elim o [ some x ↦ x | none ↦ key ]) f) all_P.0
    by_test false f next = next f

environment_Kept : (m : Text) → Stable m → Kept (environment m)
unfolding parse_key key_name
environment_Kept m stable = ap as_environment stable

other_key-Kept : (o : Option Text) (k : ConfigKey) → other_key o ≡ ok k → Kept k
other_key-Kept none k e = absurd (cc)
other_key-Kept (some name) k e = named (parse_name name) refl e
  where
    named : (r : Result ConfigError Text) → parse_name name ≡ r → as_environment r ≡ ok k → Kept k
    named (err f) same g = absurd (cc)
    named (ok m) same g =
        subst Kept (ap (λ r. elim r [ ok x ↦ x | err f ↦ environment m ]) g)
          (environment_Kept m (parse_name-Stable name m same))

-- A key that is parsed from any spelling is printed to a name that parses to the same key.
pub parse_key-key_name :
    (spelling : Text) (k : ConfigKey) → parse_key spelling ≡ ok k → parse_key (key_name k) ≡ ok k
unfolding parse_key
parse_key-key_name spelling k e = by_name (find_key spelling fixed_keys) refl e
  where
    by_name :
        (o : Option ConfigKey)
        → find_key spelling fixed_keys ≡ o
        → (elim o [ some x ↦ ok x | none ↦ other_key (strip_prefix (text "env.") spelling) ]) ≡ ok k
        → Kept k
    by_name (some x) same f =
        subst Kept (ap (λ r. elim r [ ok y ↦ y | err g ↦ x ]) f)
          (find_key_elim Kept spelling fixed_keys x same fixed_keys-Kept)
    by_name none same f = other_key-Kept (strip_prefix (text "env.") spelling) k f
