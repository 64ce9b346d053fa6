-- ===== src/Protocol/Codec/Bounds.antt =====
-- The memory of a reader of crates/protocol/src/codec.rs is bounded.
use remote_codex.Base.{
  ℕ, suc, ◌+◌, ◌≤◌, ◌≡◌, refl, Bool, true, false, Option, none, some, List, [], ◌∷◌, ◌++◌, Result,
  err, if◌then◌else◌, ltb, length, take, length-append, arith,
}
use remote_codex.Protocol.Codec.{
  IoError, frame_too_long, Reader, parsed, consume, position, take_chunk, next_from, next, at_end,
}

module _ {A : Type 0} (decode : List ℕ → Option A) (limit : ℕ) where
  abbrev Bounded : Result IoError (Option A) × Reader → Type 0
  Bounded r = length r.1.bytes ≤ limit

  at_end-Bounded :
      (bytes : List ℕ) (input : List (List ℕ))
      → length bytes ≤ limit
      → Bounded (at_end decode limit bytes input)
  at_end-Bounded [] input small = small
  at_end-Bounded (b ∷ bs) input small = small

  take_chunk-Bounded :
      (bytes chunk : List ℕ) (rest : List (List ℕ)) (o : Option ℕ)
      (more : Result IoError (Option A) × Reader)
      → length bytes ≤ limit
      → (length (bytes ++ chunk) ≤ limit → Bounded more)
      → Bounded (take_chunk decode limit bytes chunk rest o more)
  unfolding take_chunk
  take_chunk-Bounded bytes chunk rest none more small later =
      by_test (ltb limit (length bytes + length chunk)) refl
    where
      by_test :
          (b : Bool)
          → ltb limit (length bytes + length chunk) ≡ b
          → Bounded (
              if b
              then (
                err frame_too_long,
                record { input = chunk ∷ rest; bytes = bytes; limit = limit },
              )
              else more)
      by_test true e = small
      by_test false e = later (ground (arith, length-append bytes chunk))
  take_chunk-Bounded bytes chunk rest (some i) more small later =
      by_test (ltb limit (length bytes + suc i))
    where
      by_test :
          (b : Bool)
          → Bounded (
              if b
              then (
                err frame_too_long,
                record { input = chunk ∷ rest; bytes = bytes; limit = limit },
              )
              else (
                parsed decode (decode (bytes ++ take (suc i) chunk)),
                record { input = consume (suc i) chunk rest; bytes = []; limit = limit },
              ))
      by_test true = small
      by_test false = omega arith

  next_from-Bounded :
      (bytes : List ℕ) (input : List (List ℕ))
      → length bytes ≤ limit
      → Bounded (next_from decode limit bytes input)
  unfolding next_from
  next_from-Bounded bytes [] small = at_end-Bounded bytes [] small
  next_from-Bounded bytes ([] ∷ rest) small = at_end-Bounded bytes ([] ∷ rest) small
  next_from-Bounded bytes ((b ∷ bs) ∷ rest) small =
      take_chunk-Bounded bytes (b ∷ bs) rest (position (b ∷ bs))
        (next_from decode limit (bytes ++ (b ∷ bs)) rest) small
        (next_from-Bounded (bytes ++ (b ∷ bs)) rest)

-- A reader that keeps at most as many bytes as its limit still does so after any input, of frames
-- too long, unfinished or invalid too.
pub next_bounded :
    {A : Type 0} (decode : List ℕ → Option A) (r : Reader)
    → length r.bytes ≤ r.limit
    → length (next decode r).1.bytes ≤ r.limit
unfolding next
next_bounded decode r small = next_from-Bounded decode r.limit r.bytes r.input small
