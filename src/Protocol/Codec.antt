-- ===== src/Protocol/Codec.antt =====
-- crates/protocol/src/codec.rs: frames are lines of JSON. The input is the list of what
-- `fill_buf` returns: at the end of the list, or where it returns nothing, the input has ended.
-- `decode` is `serde_json::from_slice` into the type wanted.
pub mod Frames
pub mod RoundTrip
pub mod Bounds
mod Tests
use remote_codex.Base.{
  ℕ, suc, ◌+◌, ◌*◌, Bool, true, false, Option, none, some, List, [], ◌∷◌, ◌++◌, Result, ok, err,
  if◌then◌else◌, ltb, ◌==◌, length, take, drop,
}

-- `MAX_FRAME`
abbrev pub max_frame : ℕ
max_frame = 2 * 1024 * 1024

pub data IoError : Type 0 where
  unexpected_eof frame_too_long invalid_frame timed_out : IoError

pub record Reader : Type 0 where
  pub input : List (List ℕ)
  pub bytes : List ℕ
  pub limit : ℕ

abbrev pub with_limit : List (List ℕ) → ℕ → Reader
with_limit input limit = record { input = input; bytes = []; limit = limit }

abbrev newline : ℕ
newline = 10

-- `iter().position(|b| *b == b'\n')`
pub place : Bool → Option ℕ → Option ℕ
place true later = some 0
place false none = none
place false (some i) = some (suc i)

pub position : List ℕ → Option ℕ
unfolding place
position [] = none
position (b ∷ bs) = place (b == newline) (position bs)

-- `consume` on what `fill_buf` returned.
abbrev pub consume : ℕ → List ℕ → List (List ℕ) → List (List ℕ)
consume count chunk rest = elim (drop count chunk) [ [] ↦ rest | b ∷ bs ↦ (b ∷ bs) ∷ rest ]

module _ {A : Type 0} (decode : List ℕ → Option A) where
  abbrev parsed : Option A → Result IoError (Option A)
  parsed none = err invalid_frame
  parsed (some a) = ok (some a)

  abbrev at_end : ℕ → List ℕ → List (List ℕ) → Result IoError (Option A) × Reader
  at_end limit [] input = (ok none, record { input = input; bytes = []; limit = limit })
  at_end limit (b ∷ bs) input =
      (err unexpected_eof, record { input = input; bytes = b ∷ bs; limit = limit })

  -- One round of the loop, on the chunk, where its first newline is, and what the loop goes on to.
  pub take_chunk :
      ℕ
      → List ℕ
      → List ℕ
      → List (List ℕ)
      → Option ℕ
      → Result IoError (Option A) × Reader
      → Result IoError (Option A) × Reader
  take_chunk limit bytes chunk rest none more =
      if ltb limit (length bytes + length chunk)
      then (err frame_too_long, record { input = chunk ∷ rest; bytes = bytes; limit = limit })
      else more
  take_chunk limit bytes chunk rest (some i) more =
      if ltb limit (length bytes + (suc i))
      then (err frame_too_long, record { input = chunk ∷ rest; bytes = bytes; limit = limit })
      else (
        parsed (decode (bytes ++ take (suc i) chunk)),
        record { input = consume (suc i) chunk rest; bytes = []; limit = limit },
      )

  -- The loop of `next`, on the limit, the bytes kept and the input.
  pub next_from : ℕ → List ℕ → List (List ℕ) → Result IoError (Option A) × Reader
  unfolding position take_chunk
  next_from limit bytes [] = at_end limit bytes []
  next_from limit bytes ([] ∷ rest) = at_end limit bytes ([] ∷ rest)
  next_from limit bytes ((b ∷ bs) ∷ rest) =
      take_chunk limit bytes (b ∷ bs) rest (position (b ∷ bs))
        (next_from limit (bytes ++ (b ∷ bs)) rest)

  pub next : Reader → Result IoError (Option A) × Reader
  unfolding next_from
  next r = next_from r.limit r.bytes r.input

-- `write_with_limit`: what is written out, in full or until the peer stops accepting data.
module _ {A : Type 0} (encode : A → List ℕ) where
  pub write_with_limit : (accepts : Bool) → A → ℕ → Result IoError (List ℕ)
  write_with_limit accepts a limit =
      let bytes = encode a ++ (newline ∷ []) in
      if ltb limit (length bytes)
      then err frame_too_long
      else if accepts
      then ok bytes
      else err timed_out
