-- ===== src/Client/Peers.antt =====
-- What a transfer task of crates/client/src/transfers calls: the endpoints at both ends, through
-- `Peers::call` of peer.rs, and the local store. What they do is a parameter, `Outside`: the remote
-- end is another process behind SSH, and the store is SQL. A history of the calls that were made,
-- which no code reads, stands beside it. What is shown of the progress is left out.
pub mod Rules
use remote_codex.Base.{
  ℕ, String, Bool, true, false, Option, none, some, List, [], ◌∷◌, Result, ok, err,
}
use remote_codex.Transfer.{Stamp, Reply, stat, listing, ready, block, hash, done}
use remote_codex.Config.Text.{Text}
use remote_codex.Session.Errors.{ClientError, remote_response}
use remote_codex.Exec.{Exec, ◌>>=◌, ◌>>◌, pure, throw}
use remote_codex.Client.Tasks.{Task, Item}

-- `Command` of crates/protocol/src/transfer.rs.
pub data Command : Type 0 where
  stats : (path : Text) → Command
  lists : (path : Text) (after : Option String) → Command
  reads : (path : Text) (stamp : Stamp) (offset : ℕ) → Command
  hashes : (path : Text) (stamp : Stamp) → Command
  prepares : (path : Text) (token : String) (source : Stamp) (expected : Option Stamp) → Command
  writes : (path : Text) (token : String) (offset : ℕ) (digest : String) → Command
  commits : (path : Text) (token digest : String) → Command
  cancels : (path : Text) (token : String) → Command
  makes_directory : (path : Text) → Command
  sets_metadata : (path : Text) (stamp : Stamp) → Command

abbrev pub Answer : Type 0
Answer = Result ClientError (Reply × List ℕ)

pub record Outside (W : Type 0) : Type 0 where
  -- the source's endpoint or the destination's, with the root that is granted there
  pub ask : (source : Bool) (root : ℕ) → Command → List ℕ → W → Answer × W
  pub store_item : Item → W → Result ClientError (Unit {0}) × W
  pub store_task : Task → W → Result ClientError (Unit {0}) × W

-- One call and its answer.
pub record Exchange : Type 0 where
  pub source : Bool
  pub command : Command
  pub payload : List ℕ
  pub answer : Answer

-- What a task changes, with the calls made so far, the last one first.
pub record Client (W : Type 0) : Type 0 where
  pub world : W
  pub task : Task
  pub item : Item
  pub history : List Exchange

abbrev pub M {ℓ} : Type 0 → Type ℓ → Type ℓ
M W A = Exec ClientError (Client W) A

abbrev recorded : {W : Type 0} → Bool → Command → List ℕ → Client W → Answer × W → Answer × Client W
recorded source command bytes c (answer, w) = (
  answer,
  record c {
    world = w;
    history =
        record { source = source; command = command; payload = bytes; answer = answer } ∷ c.history;
  },
)

abbrev stored :
    {W : Type 0}
    → Client W
    → Result ClientError (Unit {0}) × W
    → Result ClientError (Unit {0}) × Client W
stored c (r, w) = (r, record c { world = w })

module _ {W : Type 0} where
  -- `let Reply::… = reply else`
  unfoldable pub as_stat : Reply → M W (Option Stamp)
  as_stat (stat s) = pure s
  as_stat (listing _) = throw remote_response
  as_stat (ready _ _) = throw remote_response
  as_stat (block _) = throw remote_response
  as_stat (hash _) = throw remote_response
  as_stat done = throw remote_response

module _ {W : Type 0} (o : Outside W) where
  unfoldable pub call : Bool → ℕ → Command → List ℕ → M W (Reply × List ℕ)
  call source root command bytes c =
      recorded source command bytes c (o.ask source root command bytes c.world)

  -- `LocalStore::transfer_item` and `LocalStore::transfer_save`.
  unfoldable pub keep_item : M W (Unit {0})
  keep_item c = stored c (o.store_item c.item c.world)

  unfoldable pub keep_task : M W (Unit {0})
  keep_task c = stored c (o.store_task c.task c.world)

  -- `Peers::stat`
  unfoldable pub find_stamp : Bool → ℕ → Text → M W (Option Stamp)
  unfolding call as_stat
  find_stamp source root path = do (reply, bytes) ← call source root (stats path) []; as_stat reply
