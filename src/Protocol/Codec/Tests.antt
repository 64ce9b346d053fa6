-- ===== src/Protocol/Codec/Tests.antt =====
-- crates/protocol/src/codec.rs on concrete bytes.
use remote_codex.Base.{ℕ, ◌≤◌, ◌≡◌, refl, Option, none, some, List, [], ◌∷◌, ok, length, arith}
use remote_codex.Protocol.Codec.{Reader, with_limit, next, write_with_limit, newline}
use remote_codex.Protocol.Codec.Frames.{flat}
use remote_codex.Protocol.Codec.RoundTrip.{next-write}
use remote_codex.Protocol.Codec.Bounds.{next_bounded}

-- A value is its JSON text here.
abbrev as_text : List ℕ → Option (List ℕ)
as_text [] = none
as_text (b ∷ bs) = elim bs [ [] ↦ some [] | c ∷ cs ↦ some (b ∷ []) ]

abbrev one_digit : List ℕ → List ℕ
one_digit [] = 48 ∷ []
one_digit (b ∷ bs) = b ∷ []

abbrev cut : Reader
cut = with_limit ((55 ∷ []) ∷ (newline ∷ 56 ∷ []) ∷ (newline ∷ []) ∷ []) 16

next-write_example :
    ((next as_text cut).0 ≡ ok (some (55 ∷ [])))
    × (flat (next as_text cut).1.input ≡ 56 ∷ newline ∷ [])
    × ((next as_text cut).1.bytes ≡ [])
    × ((next as_text cut).1.limit ≡ 16)
unfolding write_with_limit
next-write_example =
    next-write as_text one_digit (55 ∷ []) cut (55 ∷ newline ∷ []) (56 ∷ newline ∷ []) refl refl
      refl refl refl refl

next_bounded_example : length (next as_text (with_limit ((1 ∷ 2 ∷ 3 ∷ []) ∷ []) 2)).1.bytes ≤ 2
next_bounded_example = next_bounded as_text (with_limit ((1 ∷ 2 ∷ 3 ∷ []) ∷ []) 2) (ground arith)
