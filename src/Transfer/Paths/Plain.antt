-- ===== src/Transfer/Paths/Plain.antt =====
-- The names that a transfer path may have (crates/transfer/src/paths.rs).
use mathlib.Core.Path.{subst}
use remote_codex.Base.{
  ℕ, ◌≡◌, refl, Bool, true, false, not, ◌&&◌, ◌||◌, List, [], ◌∷◌, Result, ok, err, any, all, ◌==◌,
  ltb, if◌then◌else◌, arith,
}
use remote_codex.Transfer.{Fault, transfer_path}
use remote_codex.Transfer.Paths.{
  Component, normal, root_dir, cur_dir, parent_dir, onto_first, split_slash, is_dot, is_dot_dot,
  later_components, first_components, path_components, names_of, components, byte_length,
}

abbrev clean_code : ℕ → Bool
clean_code c = not (c == b'/') && not (c == 0)

abbrev is_clean : List ℕ → Bool
is_clean = all clean_code

abbrev is_empty : List ℕ → Bool
is_empty [] = true
is_empty (c ∷ s) = false

-- A name that stays in its directory: not empty, `.` or `..`, and without a slash or a zero byte.
abbrev pub is_plain : List ℕ → Bool
is_plain s = not (is_empty s) && (not (is_dot s) && (not (is_dot_dot s) && is_clean s))

abbrev plain_component : Component → Bool
plain_component (normal s) = is_plain s
plain_component _ = true

onto_first-clean :
    (c : ℕ) (parts : List (List ℕ))
    → clean_code c ≡ true
    → all is_clean parts ≡ true
    → all is_clean (onto_first c parts) ≡ true
onto_first-clean c [] e good = ground arith
onto_first-clean c (part ∷ parts) e good = ground arith

clean_of :
    (c : ℕ) (s : List ℕ)
    → any (λ c. c == 0) (c ∷ s) ≡ false
    → (c == b'/') ≡ false
    → clean_code c ≡ true
clean_of c s e f = ground arith

split_slash-clean :
    (path : List ℕ) → any (λ c. c == 0) path ≡ false → all is_clean (split_slash path) ≡ true
unfolding split_slash
split_slash-clean [] e = refl
split_slash-clean (c ∷ s) e = by_slash (c == b'/') refl (split_slash-clean s (ground arith))
  where
    by_slash :
        (b : Bool)
        → (c == b'/') ≡ b
        → all is_clean (split_slash s) ≡ true
        → all is_clean (if b then [] ∷ split_slash s else onto_first c (split_slash s)) ≡ true
    by_slash true same rest = rest
    by_slash false same rest = onto_first-clean c (split_slash s) (clean_of c s e same) rest

conjunction :
    (a b d r : Bool)
    → a ≡ false
    → b ≡ false
    → d ≡ true
    → r ≡ true
    → ((not a && (not b && d)) && r) ≡ true
conjunction a b d r p q s t = ground arith

part_plain :
    (c : ℕ) (s : List ℕ) (rest : List Component)
    → is_clean (c ∷ s) ≡ true
    → all plain_component rest ≡ true
    → all plain_component (
        if is_dot (c ∷ s)
        then rest
        else if is_dot_dot (c ∷ s)
        then parent_dir ∷ rest
        else normal (c ∷ s) ∷ rest)
      ≡ true
part_plain c s rest good more = by_dots (is_dot (c ∷ s)) (is_dot_dot (c ∷ s)) refl refl
  where
    by_dots :
        (one two : Bool)
        → is_dot (c ∷ s) ≡ one
        → is_dot_dot (c ∷ s) ≡ two
        → all plain_component
            (if one then rest else if two then parent_dir ∷ rest else normal (c ∷ s) ∷ rest)
          ≡ true
    by_dots true two e f = more
    by_dots false true e f = more
    by_dots false false e f =
        conjunction (is_dot (c ∷ s)) (is_dot_dot (c ∷ s)) (is_clean (c ∷ s))
          (all plain_component rest) e f good more

later_components-plain :
    (parts : List (List ℕ))
    → all is_clean parts ≡ true
    → all plain_component (later_components parts) ≡ true
unfolding later_components
later_components-plain [] good = refl
later_components-plain ([] ∷ parts) good = later_components-plain parts good
later_components-plain ((c ∷ s) ∷ parts) good =
    part_plain c s (later_components parts) (ground arith)
      (later_components-plain parts (ground arith))

first_components-plain :
    (parts : List (List ℕ))
    → all is_clean parts ≡ true
    → all plain_component (first_components parts) ≡ true
unfolding first_components
first_components-plain [] good = refl
first_components-plain ([] ∷ []) good = refl
first_components-plain ([] ∷ (part ∷ parts)) good = later_components-plain (part ∷ parts) good
first_components-plain ((c ∷ s) ∷ parts) good =
    by_dot (is_dot (c ∷ s)) (later_components-plain parts (ground arith))
      (later_components-plain ((c ∷ s) ∷ parts) good)
  where
    by_dot :
        (b : Bool)
        → all plain_component (later_components parts) ≡ true
        → all plain_component (later_components ((c ∷ s) ∷ parts)) ≡ true
        → all plain_component
            (if b then cur_dir ∷ later_components parts else later_components ((c ∷ s) ∷ parts))
          ≡ true
    by_dot true short long = short
    by_dot false short long = long

-- The names of the components, all of them plain.
abbrev PlainNames : Result Fault (List (List ℕ)) → Type 0
PlainNames (ok names) = all is_plain names ≡ true
PlainNames (err e) = Unit

names_of-plain : (cs : List Component) → all plain_component cs ≡ true → PlainNames (names_of cs)
unfolding names_of
names_of-plain [] good = refl
names_of-plain (normal s ∷ rest) good = onto (names_of rest) (names_of-plain rest (ground arith))
  where
    onto :
        (r : Result Fault (List (List ℕ)))
        → PlainNames r
        → PlainNames (elim r [ ok names ↦ ok (s ∷ names) | err e ↦ err e ])
    onto (ok names) more = ground arith
    onto (err e) more = tt
names_of-plain (root_dir ∷ rest) good = tt
names_of-plain (cur_dir ∷ rest) good = tt
names_of-plain (parent_dir ∷ rest) good = tt

components_plain : (path : List ℕ) → PlainNames (components path)
unfolding components path_components
components_plain path = by_test (any (λ c. c == 0) path) (ltb 4096 (byte_length path)) refl
  where
    by_test :
        (zero long : Bool)
        → any (λ c. c == 0) path ≡ zero
        → PlainNames (
            if zero || long
            then err transfer_path
            else names_of (first_components (split_slash path)))
    by_test true long e = tt
    by_test false true e = tt
    by_test false false e =
        names_of-plain (first_components (split_slash path))
          (first_components-plain (split_slash path) (split_slash-clean path e))

-- Whatever the path, each name that it is resolved by is the name of an entry in a directory: not
-- empty, not `.` or `..`, and without a slash or a zero byte.
pub components_stay :
    (path : List ℕ) (names : List (List ℕ)) → components path ≡ ok names → all is_plain names ≡ true
components_stay path names e = subst PlainNames e (components_plain path)
