-- ===== src/Transfer/Endpoint.antt =====
-- `Endpoint::dispatch` of crates/transfer/src/lib.rs, for the commands on one path and token.
-- `Command::List` reads a directory and `Command::Directory` makes one; they are not here.
pub mod Checkpoints
use remote_codex.Base.{ℕ, String, Bool, true, false, ◌||◌, Option, List, [], ◌∷◌, ◌==◌, length}
use remote_codex.Transfer.{Stamp, Reply, stat, done, hash, transfer_packet}
use remote_codex.Transfer.World.{World, M, ◌>>=◌, ◌>>◌, pure}
use remote_codex.Transfer.Stages
use remote_codex.Transfer.Stages.{Endpoint, check_cancelled, require}
use remote_codex.Transfer.Inspect
use remote_codex.Transfer.Staging

pub data Command : Type 0 where
  stats : Command
  reads : (source : Stamp) (offset : ℕ) → Command
  hashes : (source : Stamp) → Command
  prepares : (source : Stamp) (expected : Option Stamp) → Command
  writes : (offset : ℕ) (digest : String) → Command
  commits : (digest : String) → Command
  cancels : Command
  sets_metadata : (source : Stamp) → Command

abbrev carries_payload : Command → Bool
carries_payload (writes _ _) = true
carries_payload _ = false

abbrev answer : M Reply → M (Reply × List ℕ)
answer m = do reply ← m; pure (reply, [])

unfoldable pub handle : Endpoint → Command → List ℕ → M (Reply × List ℕ)
handle h stats bytes = answer (do pure (stat (← Stages.find_stamp h)))
handle h (reads source offset) bytes = Inspect.read h source offset
handle h (hashes source) bytes = answer (do pure (hash (← Inspect.hash h source)))
handle h (prepares source expected) bytes = answer (Staging.prepare h source expected)
handle h (writes offset digest) bytes = answer (Staging.write h offset digest bytes)
handle h (commits digest) bytes = answer (Staging.commit h digest)
handle h cancels bytes = answer (Staging.cancel h)
handle h (sets_metadata source) bytes = answer (do Inspect.metadata h source; pure done)

unfoldable pub dispatch : Endpoint → Command → List ℕ → M (Reply × List ℕ)
unfolding handle
dispatch h command bytes = do
  check_cancelled h
  require (carries_payload command || length bytes == 0) transfer_packet
  handle h command bytes

-- What a sequence of commands, each with its payload, leaves.
unfoldable pub run : Endpoint → List (Command × List ℕ) → World → World
run h [] w = w
run h ((command, bytes) ∷ rest) w = run h rest (dispatch h command bytes w).1
