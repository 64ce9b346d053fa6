-- ===== src/Protocol/Wire/Packets.antt =====
-- Packets that are written are read back: crates/protocol/src/transfer/wire.rs.
use mathlib.Core.Path.{subst}
use remote_codex.Base.{
  ℕ, ◌+◌, ◌*◌, ◌/◌, ◌%◌, ◌<◌, ◌≡◌, refl, sym, ap, ◌∙◌, Bool, true, false, Option, some, List, [],
  ◌∷◌, ◌++◌, Result, ok, err, if◌then◌else◌, ltb, length, drop, length-append, take-append_left,
  take_all, arith,
}
use remote_codex.Protocol.Wire.{
  WireError, u32_bytes, read_u32, read_exact, too_long, read, write, with_header, with_size,
  write_json, invalid_data,
}

drop-append : (xs ys : List ℕ) → drop (length xs) (xs ++ ys) ≡ ys
drop-append [] ys = refl
drop-append (x ∷ xs) ys = drop-append xs ys

append_assoc : (xs ys zs : List ℕ) → (xs ++ ys) ++ zs ≡ xs ++ (ys ++ zs)
append_assoc [] ys zs = refl
append_assoc (x ∷ xs) ys zs = ap (◌∷◌ x) (append_assoc xs ys zs)

u32_back :
    (n : ℕ)
    → n < 4294967296
    → ((n / 16777216 % 256 * 256 + n / 65536 % 256) * 256 + n / 256 % 256) * 256 + n % 256 ≡ n
u32_back n small = omega arith

read_u32-append :
    (n : ℕ) (rest : List ℕ) → n < 4294967296 → read_u32 (u32_bytes n ++ rest) ≡ some (n, rest)
read_u32-append n rest small = ap (λ m. some (m, rest)) (u32_back n small)

read_exact-append : (xs rest : List ℕ) → read_exact (length xs) (xs ++ rest) ≡ some (xs, rest)
read_exact-append xs rest =
    rw
      (
        enough,
        take-append_left (length xs) xs rest (omega arith),
        take_all (length xs) xs (omega arith),
        drop-append xs rest,
      )
      refl
  where
    enough : ltb (length (xs ++ rest)) (length xs) ≡ false
    enough = let long = length-append xs rest in ground arith

abbrev packet_in : List ℕ → Result WireError (List ℕ) → List ℕ
packet_in other (ok p) = p
packet_in other (err e) = other

same_packet : (a b : List ℕ) → ◌≡◌ {A = Result WireError (List ℕ)} (ok a) (ok b) → a ≡ b
same_packet a b same = ap (packet_in a) same

small :
    (header size : ℕ) → too_long header size ≡ false → (header < 4294967296) × (size < 4294967296)
small header size fits = (ground arith, ground arith)

module _ {V : Type 0} (encode : V → Option (List ℕ)) (decode : List ℕ → Option V) where
  packet_read :
      (v : V) (json bytes rest : List ℕ)
      → decode json ≡ some v
      → too_long (length json) (length bytes) ≡ false
      → read decode
          ((u32_bytes (length json) ++ (u32_bytes (length bytes) ++ (json ++ bytes))) ++ rest)
        ≡ ok ((v, bytes), rest)
  unfolding read
  packet_read v json bytes rest parsed fits =
      let both = small (length json) (length bytes) fits in
      ap (λ n. with_header decode (some (n, (u32_bytes (length bytes) ++ (json ++ bytes)) ++ rest)))
        (u32_back (length json) both.0)
      ∙ ap (λ n. with_size decode (length json) (some (n, (json ++ bytes) ++ rest)))
          (u32_back (length bytes) both.1)
      ∙ ap (λ l. with_size decode (length json) (some (length bytes, l)))
          (append_assoc json bytes rest)
      ∙ rw (fits, read_exact-append json (bytes ++ rest), parsed, read_exact-append bytes rest) refl

  -- A packet that is written, of a value whose JSON parses to it, is read back as the value and
  -- the bytes, and what follows it is left.
  pub read-write :
      (v : V) (json bytes packet rest : List ℕ)
      → encode v ≡ some json
      → decode json ≡ some v
      → write encode v bytes ≡ ok packet
      → read decode (packet ++ rest) ≡ ok ((v, bytes), rest)
  unfolding write
  read-write v json bytes packet rest written parsed same =
      by_size (too_long (length json) (length bytes)) refl
        (ap (λ j. write_json encode j bytes) (sym written) ∙ same)
    where
      by_size :
          (b : Bool)
          → too_long (length json) (length bytes) ≡ b
          → (if b
              then err invalid_data
              else ok (u32_bytes (length json) ++ (u32_bytes (length bytes) ++ (json ++ bytes))))
            ≡ ok packet
          → read decode (packet ++ rest) ≡ ok ((v, bytes), rest)
      by_size true long same = absurd (cc)
      by_size false fits same =
          subst (λ p. read decode (p ++ rest) ≡ ok ((v, bytes), rest)) (same_packet _ _ same)
            (packet_read v json bytes rest parsed fits)
