-- ===== src/Config/Text.antt =====
-- The operations on texts that crates/core/src/config uses, on code points.
use Prim.Native.Char.{code}
use remote_codex.Base.{
  ℕ, ◌+◌, ◌-◌, String, Bool, true, false, ◌&&◌, ◌||◌, Option, none, some, List, [], ◌∷◌, map,
  if◌then◌else◌, ltb, leb, ◌==◌, any, reverse,
}

abbrev pub Text : Type 0
Text = List ℕ

abbrev pub text : String → Text
text String.[] = []
text (String.◌∷◌ c s) = code c ∷ text s

abbrev pub text_eq : Text → Text → Bool
text_eq [] [] = true
text_eq (a ∷ s) (b ∷ t) = a == b && text_eq s t
text_eq [] (b ∷ t) = false
text_eq (a ∷ s) [] = false

abbrev pub one_of : List Text → Text → Bool
one_of names t = any (text_eq t) names

abbrev pub within : ℕ → ℕ → ℕ → Bool
within low high c = leb low c && leb c high

abbrev pub is_digit : ℕ → Bool
is_digit = within b'0' b'9'

abbrev pub is_letter : ℕ → Bool
is_letter c = within b'a' b'z' c || within b'A' b'Z' c

abbrev pub upper : Text → Text
upper = map (λ c. if within b'a' b'z' c then c - 32 else c)

abbrev pub lower : Text → Text
lower = map (λ c. if within b'A' b'Z' c then c + 32 else c)

-- `strip_prefix`
abbrev pub strip_prefix : Text → Text → Option Text
strip_prefix [] t = some t
strip_prefix (p ∷ ps) [] = none
strip_prefix (p ∷ ps) (c ∷ t) = if p == c then strip_prefix ps t else none

abbrev pub starts_with : Text → Text → Bool
starts_with [] t = true
starts_with (p ∷ ps) [] = false
starts_with (p ∷ ps) (c ∷ t) = p == c && starts_with ps t

abbrev pub ends_with : Text → Text → Bool
ends_with suffix t = starts_with (reverse suffix) (reverse t)

abbrev pub onto_part : ℕ → List Text → List Text
onto_part c [] = (c ∷ []) ∷ []
onto_part c (part ∷ parts) = (c ∷ part) ∷ parts

-- `split` at one character.
abbrev pub split : ℕ → Text → List Text
split separator [] = [] ∷ []
split separator (c ∷ t) =
    let parts = split separator t in if c == separator then [] ∷ parts else onto_part c parts

-- What follows the first `://`. `split("://").nth(1)` stops before a second one, where the part up
-- to the next slash, which is all that is looked at, has one colon more here.
abbrev pub after_scheme : Text → Option Text
after_scheme [] = none
after_scheme (c ∷ t) =
    let later = after_scheme t in
    if starts_with (text "://") (c ∷ t) then strip_prefix (text "://") (c ∷ t) else later

-- `char::is_control` and `char::is_whitespace`.
abbrev pub is_control : ℕ → Bool
is_control c = ltb c 32 || within 127 159 c

abbrev pub is_whitespace : ℕ → Bool
is_whitespace c =
    within 9 13 c
    || (c == 32
        || (c == 133
            || (c == 160
                || (c == 5760
                    || (within 8192 8202 c
                        || (c == 8232
                            || (c == 8233 || (c == 8239 || (c == 8287 || c == 12288)))))))))

-- `str::len`, in UTF-8.
abbrev pub width : ℕ → ℕ
width c = if ltb c 128 then 1 else if ltb c 2048 then 2 else if ltb c 65536 then 3 else 4

abbrev pub byte_length : Text → ℕ
byte_length [] = 0
byte_length (c ∷ t) = width c + byte_length t
