-- ===== src/Client/Tests.antt =====
-- The copy of crates/client/src/transfers/copy.rs on concrete peers.
use remote_codex.Base.{
  ℕ, ◌≤◌, ◌≡◌, ◌≢◌, refl, ap, String, Bool, true, false, ◌⊎◌, none, some, List, [], ◌∷◌, Result, ok,
  err, arith,
}
use remote_codex.Transfer.{Fault, Stamp, file, stat, ready, block, hash, done}
use remote_codex.Transfer.Paths
use remote_codex.Transfer.World.{Meta, File, World}
use remote_codex.Transfer.Stages.{Endpoint, is_readable}
use remote_codex.Transfer.Inspect.{with_mode, with_times}
use remote_codex.Transfer.Staging.Arrival.{empty_disk}
use remote_codex.Config.Text.{text}
use remote_codex.Session.Errors.{ClientError, remote_response, remote_fault}
use remote_codex.Exec
use remote_codex.Client.Tasks.{Item, Task, Transfer, upload, running, keep_both}
use remote_codex.Client.Peers
use remote_codex.Client.Peers.{Answer, Outside, Exchange, Client}
use remote_codex.Client.Copy
use remote_codex.Client.Copy.Calls.{prepared_with, Sent}
use remote_codex.Client.Copy.Rounds.{copy_ends}
use remote_codex.Client.Copy.Followed.{copy_follows}
use remote_codex.Client.Copy.Account.{Accounts, file-Accounts}
use remote_codex.Client.Conflict
use remote_codex.Client.Conflict.Decided.{Decided}
use remote_codex.Client.Conflict.Decision.{destination_decides}
use remote_codex.Client.Pair.{pair}
use remote_codex.Client.Pair.Quiet.{holding}
use remote_codex.Client.Pair.Arrival.{copy_arrives}

-- Peers that give these answers in turn.
abbrev pop : List Answer → Answer × List Answer
pop [] = (err remote_response, [])
pop (a ∷ answers) = (a, answers)

abbrev scripted : Outside (List Answer)
scripted = record {
  ask = λ source root command bytes answers. pop answers;
  store_item = λ item answers. (ok tt, answers);
  store_task = λ task answers. (ok tt, answers);
}

abbrev size_of : List ℕ → String
size_of [] = "none"
size_of (b ∷ []) = "one"
size_of (b ∷ c ∷ bytes) = "more"

abbrev two_bytes : Stamp
two_bytes = record {
  kind = file;
  length = 2;
  modified_ns = 5000000007;
  device = 1;
  inode = 9;
  mode = 420;
}

abbrev one_item : Item
one_item = record {
  index = 0;
  parent = none;
  root = 0;
  source = text "a/b";
  target = text "b";
  stamp = two_bytes;
  token = "t";
  expected = none;
  prepared = false;
  bytes = 0;
  done = false;
  skipped = false;
  choice = none;
  restart = false;
  restage = false;
}

abbrev one_view : Transfer
one_view = record {
  id = "x";
  name = "b";
  server = "s";
  workspace = "w";
  direction = upload;
  destination = [];
  status = running;
  bytes = 5;
  total = 7;
  files = 2;
  completed = 1;
  skipped = 0;
  message = none;
  error_code = none;
  conflict = none;
  active = true;
  owned = true;
}

abbrev one_task : Task
one_task = record {
  view = one_view;
  server_id = "s";
  grants = [];
  sources = [];
  remote_identity = none;
  remote_root = none;
  scanned = true;
  cancel = false;
  current = some 0;
  policy = none;
}

abbrev client : {W : Type 0} → W → Client W
client w = record { world = w; task = one_task; item = one_item; history = [] }

-- Two blocks of one byte each.
abbrev answers : List Answer
answers =
    ok (ready 0 false, [])
    ∷ ok (block "one", 104 ∷ [])
    ∷ ok (ready 1 false, [])
    ∷ ok (block "one", 105 ∷ [])
    ∷ ok (ready 2 false, [])
    ∷ ok (hash "more", [])
    ∷ ok (done, [])
    ∷ []

abbrev copied : Result ClientError (Unit {0}) × Client (List Answer)
copied = Copy.file scripted size_of (client answers)

copy_runs : copied.0 ≡ ok tt
unfolding Copy.file Copy.send Copy.seal Copy.copy_blocks Copy.copy_block Copy.as_ready Copy.as_block
    Copy.as_hash Peers.call Peers.keep_item Exec.◌>>=◌ Exec.◌>>◌ Exec.pure Exec.throw Exec.gets
    Exec.modify Exec.require
copy_runs = refl

copy_follows_example :
    (offset : ℕ) × (complete : Bool) × (extra : List ℕ) × (offset ≤ 2)
    × (let h = prepared_with one_item offset complete extra ∷ [] in
        ((complete ≡ true) × (copied.1.history ≡ h))
        ⊎ ((complete ≡ false) × Sent size_of one_item offset h copied.1.history))
copy_follows_example =
    copy_follows scripted size_of (client answers) copied.1 (ap (λ r. (r, copied.1)) copy_runs)

abbrev looped : Result ClientError Bool × Client (List Answer)
looped =
    Copy.copy_blocks scripted size_of 1 1
      (client (ok (block "one", 105 ∷ []) ∷ ok (ready 2 false, []) ∷ []))

loop_runs : looped.0 ≡ ok true
unfolding Copy.copy_blocks Copy.copy_block Copy.as_ready Copy.as_block Peers.call Peers.keep_item
    Exec.◌>>=◌ Exec.◌>>◌ Exec.pure Exec.throw Exec.gets Exec.modify Exec.require
loop_runs = refl

copy_ends_example : looped.0 ≢ ok false
copy_ends_example =
    copy_ends scripted size_of 1 1
      (client (ok (block "one", 105 ∷ []) ∷ ok (ready 2 false, []) ∷ [])) (omega arith)
      (omega arith)

-- The first answer breaks the protocol.
file-Accounts_example : Accounts 5 2 (Copy.file scripted size_of (client (ok (done, []) ∷ []))).1
file-Accounts_example =
    file-Accounts scripted size_of 5 2 (client (ok (done, []) ∷ [])) (omega arith) (omega arith)

abbrev plain : Meta
plain = record { mtime = 5; mtime_nsec = 7; device = 1; inode = 9; mode = 420 }

abbrev source_end : Endpoint
source_end = record {
  owner = "id";
  path = "a/b";
  token = "t";
  digest = size_of;
  is_uuid = λ t. true;
  fresh = plain;
  journal_size = λ j. 100;
}

abbrev target_end : Endpoint
target_end = record source_end { path = "b" }

abbrev source_file : File
source_file = record { bytes = 104 ∷ 105 ∷ []; meta = plain }

abbrev refuse : Fault → ClientError
refuse e = remote_fault "TRANSFER" "" false

source_names : Paths.components (Paths.codes "a/b") ≡ ok (Paths.codes "a" ∷ Paths.codes "b" ∷ [])
unfolding Paths.components
source_names = refl

target_names : Paths.components (Paths.codes "b") ≡ ok (Paths.codes "b" ∷ [])
unfolding Paths.components
target_names = refl

abbrev disks : World × World
disks = (holding source_file none [], empty_disk [])

copy_arrives_example :
    let r = Copy.file (pair refuse remote_response source_end target_end) size_of (client disks) in
    (r.0 ≡ ok tt)
    × (r.1.world.1.published
        ≡ record {
          replaced = none;
          placed = record {
            bytes = 104 ∷ 105 ∷ [];
            meta = with_times two_bytes (with_mode two_bytes plain);
          };
        }
          ∷ [])
    × (r.1.world.0 ≡ holding source_file none [])
unfolding is_readable
copy_arrives_example =
    copy_arrives refuse remote_response source_end target_end source_file (client disks) none [] []
      (Paths.codes "a") (Paths.codes "b") (Paths.codes "b" ∷ []) [] source_names target_names refl
      refl refl refl refl refl refl (λ offset low. refl) refl

-- A file stands at the destination, and the item is to be kept beside it.
abbrev stands : List Answer
stands = ok (stat (some two_bytes), []) ∷ ok (stat none, []) ∷ []

abbrev beside : Client (List Answer)
beside = record (client stands) { item = record one_item { choice = some keep_both } }

abbrev decided : Result ClientError Bool × Client (List Answer)
decided = Conflict.destination scripted beside

decide_runs : (decided.0 ≡ ok true) × (decided.1.item.target ≡ text "b (2)")
unfolding Conflict.destination Conflict.find_name Conflict.chosen Conflict.is_stale
    Conflict.alternate Peers.find_stamp Exec.◌>>=◌ Exec.◌>>◌ Exec.pure Exec.throw Exec.gets
    Exec.modify
decide_runs = (refl, refl)

other_names :
    (Conflict.alternate (text "a/b.tar.gz") 12 false ≡ text "a/b.tar (12).gz")
    × (Conflict.alternate (text ".b") 3 false ≡ text ".b (3)")
    × (Conflict.alternate (text "a/b.d") 2 true ≡ text "a/b.d (2)")
unfolding Conflict.alternate
other_names = (refl, refl, refl)

destination_decides_example : Decided beside.task beside.item true decided.1
destination_decides_example =
    destination_decides scripted beside decided.1 true refl (ap (λ r. (r, decided.1)) decide_runs.0)
