-- ===== src/Protocol/Codec/Frames.antt =====
-- Where the first line of the bytes ends (crates/protocol/src/codec.rs).
use mathlib.Core.Path.{subst}
use remote_codex.Base.{
  ℕ, suc, ◌≡◌, refl, sym, ap, Bool, true, false, not, Option, none, some, List, [], ◌∷◌, ◌++◌, ◌==◌,
  length, take, drop, all, arith,
}
use remote_codex.Protocol.Codec.{newline, place, position}

abbrev pub flat : List (List ℕ) → List ℕ
flat [] = []
flat (c ∷ cs) = c ++ flat cs

abbrev pub is_filled : List ℕ → Bool
is_filled [] = false
is_filled (b ∷ bs) = true

-- No newline in it.
abbrev pub one_line : List ℕ → Bool
one_line = all (λ b. not (b == newline))

-- What `position` answers for the start of a line that goes on.
abbrev pub Located : List ℕ → List ℕ → List ℕ → List ℕ → Option ℕ → Type 0
Located chunk later line rest none =
    (tail : List ℕ) × (line ≡ chunk ++ tail) × (later ≡ tail ++ (newline ∷ rest))
Located chunk later line rest (some i) =
    (take (suc i) chunk ≡ line ++ (newline ∷ []))
    × (drop (suc i) chunk ++ later ≡ rest)
    × (i ≡ length line)

abbrev head_of : ℕ → List ℕ → ℕ
head_of d [] = d
head_of d (x ∷ xs) = x

abbrev tail_of : List ℕ → List ℕ
tail_of [] = []
tail_of (x ∷ xs) = xs

Located-here :
    (b : ℕ) (bs later rest : List ℕ) (o : Option ℕ)
    → b ≡ newline
    → bs ++ later ≡ rest
    → Located (b ∷ bs) later [] rest (place true o)
unfolding place
Located-here b bs later rest o e f = (ap (λ x. x ∷ []) e, f, refl)

Located-later :
    (b : ℕ) (bs later line rest : List ℕ) (o : Option ℕ)
    → Located bs later line rest o
    → Located (b ∷ bs) later (b ∷ line) rest (place false o)
unfolding place
Located-later b bs later line rest none (tail, e, f) = (tail, ap (◌∷◌ b) e, f)
Located-later b bs later line rest (some i) (e, f, g) = (ap (◌∷◌ b) e, f, ap suc g)

is_newline : (b : ℕ) → b ≡ newline → (b == newline) ≡ true
is_newline b e = ground arith

not_newline :
    (b x : ℕ) (line : List ℕ) → b ≡ x → one_line (x ∷ line) ≡ true → (b == newline) ≡ false
not_newline b x line e good = ground arith

pub position-Located :
    (chunk later line rest : List ℕ)
    → one_line line ≡ true
    → chunk ++ later ≡ line ++ (newline ∷ rest)
    → Located chunk later line rest (position chunk)
unfolding position
position-Located [] later line rest good e = (line, refl, e)
position-Located (b ∷ bs) later [] rest good e =
    let here : b ≡ newline = ap (head_of 0) e in
    subst (λ x. Located (b ∷ bs) later [] rest (place x (position bs))) (sym (is_newline b here))
      (Located-here b bs later rest (position bs) here (ap tail_of e))
position-Located (b ∷ bs) later (x ∷ line) rest good e =
    let same : b ≡ x = ap (head_of 0) e in
    let goes_on : (b == newline) ≡ false = not_newline b x line same good in
    subst (λ y. Located (b ∷ bs) later (x ∷ line) rest (place y (position bs))) (sym goes_on)
      (subst (λ z. Located (b ∷ bs) later (z ∷ line) rest (place false (position bs))) same
        (Located-later b bs later line rest (position bs)
          (position-Located bs later line rest (ground arith) (ap tail_of e))))
