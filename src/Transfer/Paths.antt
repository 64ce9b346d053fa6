-- ===== src/Transfer/Paths.antt =====
-- crates/transfer/src/paths.rs: the names of a transfer path. `Path::components` of the standard
-- library is written out for Unix: a leading slash is the root, empty names and inner dots are
-- dropped, and a dot counts only as the first name.
pub mod Plain
mod Tests
use Prim.Native.Char.{code}
use remote_codex.Base.{
  ℕ, ◌+◌, String, Bool, true, false, ◌||◌, List, [], ◌∷◌, Result, ok, err, if◌then◌else◌, ltb, ◌==◌,
  any,
}
use remote_codex.Transfer.{Fault, transfer_path}

-- The code points of a text.
abbrev pub codes : String → List ℕ
codes String.[] = []
codes (String.◌∷◌ c s) = code c ∷ codes s

-- `str::len`: the number of bytes in UTF-8.
abbrev pub utf8_width : ℕ → ℕ
utf8_width c = if ltb c 128 then 1 else if ltb c 2048 then 2 else if ltb c 65536 then 3 else 4

pub byte_length : List ℕ → ℕ
byte_length [] = 0
byte_length (c ∷ s) = utf8_width c + byte_length s

pub data Component : Type 0 where
  normal : List ℕ → Component
  root_dir cur_dir parent_dir : Component

abbrev onto_first : ℕ → List (List ℕ) → List (List ℕ)
onto_first c [] = (c ∷ []) ∷ []
onto_first c (part ∷ parts) = (c ∷ part) ∷ parts

pub split_slash : List ℕ → List (List ℕ)
split_slash [] = [] ∷ []
split_slash (c ∷ s) = let rest = split_slash s in if c == b'/' then [] ∷ rest else onto_first c rest

-- What a part is; an empty part is no component.
abbrev pub is_dot : List ℕ → Bool
is_dot (c ∷ []) = c == b'.'
is_dot _ = false

abbrev pub is_dot_dot : List ℕ → Bool
is_dot_dot (c ∷ d ∷ []) = elim (c == b'.') [ true ↦ d == b'.' | false ↦ false ]
is_dot_dot _ = false

later_components : List (List ℕ) → List Component
later_components [] = []
later_components ([] ∷ parts) = later_components parts
later_components ((c ∷ s) ∷ parts) =
    let rest = later_components parts in
    if is_dot (c ∷ s)
    then rest
    else if is_dot_dot (c ∷ s)
    then parent_dir ∷ rest
    else normal (c ∷ s) ∷ rest

first_components : List (List ℕ) → List Component
unfolding later_components
first_components [] = []
first_components ([] ∷ []) = []
first_components ([] ∷ (part ∷ parts)) = root_dir ∷ later_components (part ∷ parts)
first_components ((c ∷ s) ∷ parts) =
    if is_dot (c ∷ s) then cur_dir ∷ later_components parts else later_components ((c ∷ s) ∷ parts)

pub path_components : List ℕ → List Component
unfolding first_components split_slash
path_components path = first_components (split_slash path)

-- `collect` of the mapped components: the first that is not a plain name is the result.
pub names_of : List Component → Result Fault (List (List ℕ))
names_of [] = ok []
names_of (normal s ∷ rest) = elim (names_of rest) [ ok names ↦ ok (s ∷ names) | err e ↦ err e ]
names_of (root_dir ∷ rest) = err transfer_path
names_of (cur_dir ∷ rest) = err transfer_path
names_of (parent_dir ∷ rest) = err transfer_path

unfoldable pub components : List ℕ → Result Fault (List (List ℕ))
unfolding path_components names_of byte_length
components path =
    if any (λ c. c == 0) path || ltb 4096 (byte_length path)
    then err transfer_path
    else names_of (path_components path)
