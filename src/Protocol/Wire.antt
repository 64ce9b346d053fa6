-- ===== src/Protocol/Wire.antt =====
-- crates/protocol/src/transfer/wire.rs: packets of a value in JSON and of bytes, each after its
-- length. The input is what is left to be read, and an output takes all that is written. The reader
-- and the writer of JSON are arguments.
pub mod Packets
mod Tests
use remote_codex.Base.{
  ℕ, ◌+◌, ◌*◌, ◌/◌, ◌%◌, Bool, true, false, ◌||◌, Option, none, some, List, [], ◌∷◌, ◌++◌, Result,
  ok, err, if◌then◌else◌, ltb, length, take, drop,
}
use remote_codex.Transfer.{chunk}
use remote_codex.Protocol.Codec.{max_frame}

pub data WireError : Type 0 where
  unexpected_eof invalid_data other : WireError

-- `write_u32` and `read_u32`: 32 bits, the highest byte first.
abbrev pub u32_bytes : ℕ → List ℕ
u32_bytes n = n / 16777216 % 256 ∷ n / 65536 % 256 ∷ n / 256 % 256 ∷ n % 256 ∷ []

abbrev pub read_u32 : List ℕ → Option (ℕ × List ℕ)
read_u32 (a ∷ b ∷ c ∷ d ∷ rest) = some (((a * 256 + b) * 256 + c) * 256 + d, rest)
read_u32 _ = none

abbrev pub read_exact : ℕ → List ℕ → Option (List ℕ × List ℕ)
read_exact n input = if ltb (length input) n then none else some (take n input, drop n input)

abbrev pub too_long : (header size : ℕ) → Bool
too_long header size = ltb max_frame header || ltb chunk size

module _ {V : Type 0} (decode : List ℕ → Option V) where
  abbrev pub with_bytes : V → Option (List ℕ × List ℕ) → Result WireError ((V × List ℕ) × List ℕ)
  with_bytes v none = err unexpected_eof
  with_bytes v (some (bytes, rest)) = ok ((v, bytes), rest)

  abbrev pub with_value : Option V → ℕ → List ℕ → Result WireError ((V × List ℕ) × List ℕ)
  with_value none size rest = err other
  with_value (some v) size rest = with_bytes v (read_exact size rest)

  abbrev pub with_json : Option (List ℕ × List ℕ) → ℕ → Result WireError ((V × List ℕ) × List ℕ)
  with_json none size = err unexpected_eof
  with_json (some (json, rest)) size = with_value (decode json) size rest

  abbrev pub with_size : ℕ → Option (ℕ × List ℕ) → Result WireError ((V × List ℕ) × List ℕ)
  with_size header none = err unexpected_eof
  with_size header (some (size, rest)) =
      if too_long header size then err invalid_data else with_json (read_exact header rest) size

  abbrev pub with_header : Option (ℕ × List ℕ) → Result WireError ((V × List ℕ) × List ℕ)
  with_header none = err unexpected_eof
  with_header (some (header, rest)) = with_size header (read_u32 rest)

  unfoldable pub read : List ℕ → Result WireError ((V × List ℕ) × List ℕ)
  read input = with_header (read_u32 input)

module _ {V : Type 0} (encode : V → Option (List ℕ)) where
  abbrev pub write_json : Option (List ℕ) → List ℕ → Result WireError (List ℕ)
  write_json none bytes = err other
  write_json (some json) bytes =
      if too_long (length json) (length bytes)
      then err invalid_data
      else ok (u32_bytes (length json) ++ (u32_bytes (length bytes) ++ (json ++ bytes)))

  unfoldable pub write : V → List ℕ → Result WireError (List ℕ)
  write value bytes = write_json (encode value) bytes
