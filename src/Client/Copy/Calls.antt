-- ===== src/Client/Copy/Calls.antt =====
-- The calls of crates/client/src/transfers/copy.rs, with the answers to them, the last one first.
use package.text.Mathlib.Text.{◌==◌ as str_eq}
use remote_codex.Base.{
  ℕ, ◌+◌, ◌≡◌, refl, String, Bool, true, false, not, ◌&&◌, List, [], ◌∷◌, ◌++◌, ok, ◌==◌, length,
  all,
}
use remote_codex.Transfer.{Reply, stat, listing, ready, block, hash, done}
use remote_codex.Session.Errors.{remote_response}
use remote_codex.Exec.Triples.{Triple, pure_lem, throw_lem}
use remote_codex.Client.Tasks.{Item}
use remote_codex.Client.Peers.{Command, prepares, reads, writes, hashes, commits, Exchange, Client}
use remote_codex.Client.Copy.{as_ready, as_block, as_hash}

-- A block as it was read, with the digest that its reader named; an answer may carry more.
pub record Block : Type 0 where
  pub bytes : List ℕ
  pub digest : String
  pub extra : List ℕ

abbrev pub asked : Bool → Command → List ℕ → Reply → List ℕ → Exchange
asked source command payload reply bytes = record {
  source = source;
  command = command;
  payload = payload;
  answer = ok (reply, bytes);
}

abbrev pub read_from : Item → ℕ → Block → Exchange
read_from item at b = asked true (reads item.source item.stamp at) [] (block b.digest) b.bytes

abbrev pub written_to : Item → ℕ → Block → Exchange
written_to item at b =
    asked false (writes item.target item.token at b.digest) b.bytes
      (ready (at + length b.bytes) false) b.extra

-- The calls for blocks in a row from an offset on, each read and then written; the last one first.
unfoldable pub copied : Item → ℕ → List Block → List Exchange → List Exchange
copied item at [] h = h
copied item at (b ∷ bs) h =
    copied item (at + length b.bytes) bs (written_to item at b ∷ read_from item at b ∷ h)

abbrev pub bytes_of : List Block → List ℕ
bytes_of [] = []
bytes_of (b ∷ bs) = b.bytes ++ bytes_of bs

-- No block is empty, and each has the digest that was named for it.
abbrev pub is_intact : (List ℕ → String) → Block → Bool
is_intact digest_of b = not (length b.bytes == 0) && str_eq (digest_of b.bytes) b.digest

-- The other calls of a copy, and their answers.
abbrev pub prepared_with : Item → ℕ → Bool → List ℕ → Exchange
prepared_with item offset complete extra =
    asked false (prepares item.target item.token item.stamp item.expected) []
      (ready offset complete) extra

abbrev pub hashed_as : Item → String → List ℕ → Exchange
hashed_as item d extra = asked true (hashes item.source item.stamp) [] (hash d) extra

abbrev pub committed : Item → String → Reply × List ℕ → Exchange
committed item d a = asked false (commits item.target item.token d) [] a.0 a.1

-- Intact blocks in a row from an offset to the source's length, and then the digest that the
-- source's endpoint gives, committed.
pub record Sent (digest_of : List ℕ → String) (item : Item) (offset : ℕ)
    (before after : List Exchange) : Type 0 where
  pub blocks : List Block
  pub digest : String
  pub extra : List ℕ
  pub answer : Reply × List ℕ
  pub whole : offset + length (bytes_of blocks) ≡ item.stamp.length
  pub intact : all (is_intact digest_of) blocks ≡ true
  pub calls :
      after
      ≡ committed item digest answer
        ∷ hashed_as item digest extra
        ∷ copied item offset blocks before

-- An item without what a copy changes of it.
abbrev pub fixed : Item → Item
fixed i = record i { bytes = 0; prepared = true }

pub copied-fixed :
    (i : Item) (at : ℕ) (bs : List Block) (h : List Exchange)
    → copied (fixed i) at bs h ≡ copied i at bs h
unfolding copied
copied-fixed i at [] h = refl
copied-fixed i at (b ∷ bs) h =
    copied-fixed i (at + length b.bytes) bs (written_to i at b ∷ read_from i at b ∷ h)

module _ {W : Type 0} where
  module _ {P F : Client W → Type 0} where
    pub as_ready_lem :
        (reply : Reply)
        → ((c : Client W) → P c → F c)
        → Triple P (as_ready reply) (λ r c. P c × (reply ≡ ready r.0 r.1)) F
    unfolding as_ready
    as_ready_lem (ready n b) k = pure_lem (n, b) (λ c p. (p, refl))
    as_ready_lem (stat s) k = throw_lem remote_response k
    as_ready_lem (listing page) k = throw_lem remote_response k
    as_ready_lem (block d) k = throw_lem remote_response k
    as_ready_lem (hash d) k = throw_lem remote_response k
    as_ready_lem done k = throw_lem remote_response k

    pub as_block_lem :
        (reply : Reply)
        → ((c : Client W) → P c → F c)
        → Triple P (as_block reply) (λ d c. P c × (reply ≡ block d)) F
    unfolding as_block
    as_block_lem (block d) k = pure_lem d (λ c p. (p, refl))
    as_block_lem (stat s) k = throw_lem remote_response k
    as_block_lem (listing page) k = throw_lem remote_response k
    as_block_lem (ready n b) k = throw_lem remote_response k
    as_block_lem (hash d) k = throw_lem remote_response k
    as_block_lem done k = throw_lem remote_response k

    pub as_hash_lem :
        (reply : Reply)
        → ((c : Client W) → P c → F c)
        → Triple P (as_hash reply) (λ d c. P c × (reply ≡ hash d)) F
    unfolding as_hash
    as_hash_lem (hash d) k = pure_lem d (λ c p. (p, refl))
    as_hash_lem (stat s) k = throw_lem remote_response k
    as_hash_lem (listing page) k = throw_lem remote_response k
    as_hash_lem (ready n b) k = throw_lem remote_response k
    as_hash_lem (block d) k = throw_lem remote_response k
    as_hash_lem done k = throw_lem remote_response k

  -- The item is the one being copied, and these are the calls so far.
  abbrev pub Stands : Item → List Exchange → Client W → Type 0
  Stands item h c = (fixed c.item ≡ item) × (c.history ≡ h)

  abbrev pub Any : Client W → Type 0
  Any c = Unit {0}
