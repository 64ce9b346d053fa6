-- ===== src/Protocol/Wire/Tests.antt =====
-- A packet of crates/protocol/src/transfer/wire.rs.
use remote_codex.Base.{ℕ, ◌≡◌, refl, Option, some, List, [], ◌∷◌, ◌++◌, ok}
use remote_codex.Protocol.Wire.{read, write}
use remote_codex.Protocol.Wire.Packets.{read-write}

abbrev as_bytes : List ℕ → Option (List ℕ)
as_bytes v = some v

abbrev packet : List ℕ
packet = 0 ∷ 0 ∷ 0 ∷ 2 ∷ 0 ∷ 0 ∷ 0 ∷ 1 ∷ 34 ∷ 34 ∷ 7 ∷ []

packet_written : write as_bytes (34 ∷ 34 ∷ []) (7 ∷ []) ≡ ok packet
unfolding write
packet_written = refl

read-write_example : read as_bytes (packet ++ (9 ∷ [])) ≡ ok ((34 ∷ 34 ∷ [], 7 ∷ []), 9 ∷ [])
read-write_example =
    read-write as_bytes as_bytes (34 ∷ 34 ∷ []) (34 ∷ 34 ∷ []) (7 ∷ []) packet (9 ∷ []) refl refl
      packet_written
