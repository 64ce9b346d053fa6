-- ===== src/Client/Copy.antt =====
-- crates/client/src/transfers/copy.rs: one file, from the source's endpoint to the destination's.
-- Offsets are ℕ: the code adds blocks of a packet's size at most to offsets below a file's length
-- in u64. SHA-256 is the argument `digest_of`.
pub mod Calls
pub mod Rounds
pub mod Followed
pub mod Account
use package.text.Mathlib.Text.{◌==◌ as str_eq}
use remote_codex.Base.{
  ℕ, zero, suc, ◌+◌, ◌-◌, min, String, Bool, true, false, not, ◌&&◌, ◌||◌, none, some, List, [],
  ◌∷◌, ◌++◌, if◌then◌else◌, ltb, ◌==◌, length,
}
use remote_codex.Transfer.{Reply, stat, listing, ready, block, hash, done}
use remote_codex.Transfer.World.{u64_max}
use remote_codex.Config.Text.{text}
use remote_codex.Session.Errors.{remote_response, integrity}
use remote_codex.Exec.{◌>>=◌, ◌>>◌, pure, throw, gets, modify, require}
use remote_codex.Client.Tasks.{Task, Item}
use remote_codex.Client.Peers.{
  Outside, Client, M, prepares, reads, writes, hashes, commits, call, keep_item,
}

module _ {W : Type 0} where
  unfoldable pub as_ready : Reply → M W (ℕ × Bool)
  as_ready (ready offset complete) = pure (offset, complete)
  as_ready (stat _) = throw remote_response
  as_ready (listing _) = throw remote_response
  as_ready (block _) = throw remote_response
  as_ready (hash _) = throw remote_response
  as_ready done = throw remote_response

  unfoldable pub as_block : Reply → M W String
  as_block (block digest) = pure digest
  as_block (stat _) = throw remote_response
  as_block (listing _) = throw remote_response
  as_block (ready _ _) = throw remote_response
  as_block (hash _) = throw remote_response
  as_block done = throw remote_response

  unfoldable pub as_hash : Reply → M W String
  as_hash (hash digest) = pure digest
  as_hash (stat _) = throw remote_response
  as_hash (listing _) = throw remote_response
  as_hash (ready _ _) = throw remote_response
  as_hash (block _) = throw remote_response
  as_hash done = throw remote_response

  -- `saturating_sub` and `saturating_add` on `u64`.
  abbrev pub restarted : ℕ → Client W → Client W
  restarted offset c = record c {
    task = record c.task {
      view = record c.task.view { bytes = min u64_max (c.task.view.bytes - c.item.bytes + offset) };
    };
    item = record c.item { bytes = offset; prepared = true };
  }

  abbrev pub advanced : ℕ → ℕ → Client W → Client W
  advanced offset size c = record c {
    task = record c.task { view = record c.task.view { bytes = c.task.view.bytes + size } };
    item = record c.item { bytes = offset };
  }

  abbrev pub marked : Client W → Client W
  marked c = record c { item = record c.item { prepared = true } }

  abbrev verifying : Client W → Client W
  verifying c = record c {
    task = record c.task {
      view = record c.task.view { message = some (text "Verifying " ++ c.item.target) };
    };
  }

  abbrev verified : Client W → Client W
  verified c = record c { task = record c.task { view = record c.task.view { message = none } } }

module _ {W : Type 0} (o : Outside W) where
  -- What follows the loop.
  unfoldable pub seal : M W (Unit {0})
  unfolding as_hash
  seal = do
    modify verifying
    item ← gets (λ c. c.item)
    (reply, _) ← call o true item.root (hashes item.source item.stamp) []
    digest ← as_hash reply
    call o false item.root (commits item.target item.token digest) []
    modify verified

module _ {W : Type 0} (o : Outside W) (digest_of : List ℕ → String) where
  -- The body of the loop: one block from `offset` on, and the offset after it.
  unfoldable pub copy_block : ℕ → M W ℕ
  unfolding as_ready as_block
  copy_block offset = do
    item ← gets (λ c. c.item)
    (reply, bytes) ← call o true item.root (reads item.source item.stamp offset) []
    digest ← as_block reply
    require (not (length bytes == 0) && str_eq (digest_of bytes) digest) integrity
    (reply, _) ← call o false item.root (writes item.target item.token offset digest) bytes
    (confirmed, complete) ← as_ready reply
    require (not complete) remote_response
    require (confirmed == offset + length bytes && not (ltb item.stamp.length confirmed))
        remote_response
    modify (advanced confirmed (length bytes))
    keep_item o
    pure confirmed

  -- The loop. It gives `true` if its test ends it, and `false` if the fuel does.
  unfoldable pub copy_blocks : ℕ → ℕ → M W Bool
  copy_blocks zero offset = do item ← gets (λ c. c.item); pure (not (ltb offset item.stamp.length))
  copy_blocks (suc fuel) offset = do
    item ← gets (λ c. c.item)
    elim (ltb offset item.stamp.length) [
      | true ↦ copy_block offset >>= λ confirmed. copy_blocks fuel confirmed
      | false ↦ pure true
    ]

  -- Each round of the loop reads one byte or more, so that the source's length is enough fuel.
  unfoldable pub send : ℕ → Bool → M W (Unit {0})
  unfolding copy_blocks seal
  send offset true = pure tt
  send offset false = do item ← gets (λ c. c.item); copy_blocks item.stamp.length offset; seal o

  unfoldable pub file : M W (Unit {0})
  unfolding as_ready send
  file = do
    modify marked
    keep_item o
    item ← gets (λ c. c.item)
    (reply, _) ←
        call o false item.root (prepares item.target item.token item.stamp item.expected) []
    (offset, complete) ← as_ready reply
    require (not (ltb item.stamp.length offset)) remote_response
    modify (restarted offset)
    keep_item o
    send offset complete
