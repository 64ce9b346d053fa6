-- ===== src/Transfer/Stages.antt =====
-- crates/transfer/src/journal.rs: the staging directory of a token, and its journal. A handle of
-- the code's `Stage` is the journal that it holds in memory.
pub mod Rules
pub mod Holding
pub mod Lock
use mathlib.Core.Option
use text.Mathlib.Text.{◌==◌ as str_eq}
use remote_codex.Base.{
  ℕ, String, Bool, true, false, not, ◌&&◌, Option, none, some, List, [], ◌∷◌, Result, ok, err,
  if◌then◌else◌, is_some, ltb,
}
use remote_codex.Transfer.{
  Stamp, Fault, transfer_io, transfer_path, transfer_token, transfer_busy, transfer_missing,
  transfer_owner, transfer_cancelled,
}
use remote_codex.Transfer.Paths.{codes, components}
use remote_codex.Transfer.World.{
  Meta, File, Journal, Stage, World, M, ◌>>=◌, ◌>>◌, pure, throw, when, gets, modify, tick, attempt,
  on_stage, content_of, stamp,
}

unfoldable pub require : Bool → Fault → M (Unit {0})
unfolding pure throw
require true e = pure tt
require false e = throw e

unfoldable pub give {ℓ} : {A : Type ℓ} → Option A → Fault → M A
unfolding pure throw
give none e = throw e
give (some a) e = pure a

-- A call that changes the disk.
unfoldable pub call : (World → World) → M (Unit {0})
unfolding tick modify ◌>>◌
call f = do tick; modify f

abbrev empty_stage : Stage
empty_stage = record { content = none; state = none; next = none; lock = false; busy = false }

abbrev with_stage : World → World
with_stage w = record w { stage = some empty_stage }

-- An endpoint, and the path and the token of its commands. `digest` is SHA-256, `is_uuid` the
-- parser of tokens, `fresh` what the system gives a file that is created, and `journal_size` the
-- bytes of a journal as JSON.
pub record Endpoint : Type 0 where
  pub owner : String
  pub path : String
  pub token : String
  pub digest : List ℕ → String
  pub is_uuid : String → Bool
  pub fresh : Meta
  pub journal_size : Journal → ℕ

abbrev pub is_root : List ℕ → Bool
is_root [] = true
is_root (_ ∷ _) = false

-- `Stage::save`: written aside, renamed, and the directory synced.
unfoldable pub save : Journal → M (Unit {0})
save j = do
  tick
  call (on_stage (λ s. record s { next = some j }))
  tick
  call (on_stage (λ s. record s { next = none; state = some j }))
  tick

unfoldable pub open_content : M File
open_content = do tick; found ← gets content_of; give found transfer_io

-- `symlink_metadata("data").is_err()`
unfoldable pub content_gone : M Bool
content_gone = do
  looked ← attempt tick
  found ← gets content_of
  pure (not (is_some looked && is_some found))

-- The directory of a path with these names.
unfoldable pub open_parent : Result Fault (List (List ℕ)) → M (Unit {0})
open_parent (err e) = throw e
open_parent (ok []) = throw transfer_path
open_parent (ok (_ ∷ _)) = tick

unfoldable pub make_stage : Option Stage → M Bool
make_stage (some _) = pure false
make_stage none = do modify with_stage; pure true

-- `create_dir`, and whether it made the directory.
unfoldable pub create_stage : M Bool
unfolding make_stage
create_stage = do tick; found ← gets (λ w. w.stage); make_stage found

unfoldable pub create_for : Option Journal → M Bool
unfolding create_stage
create_for none = pure false
create_for (some _) = create_stage

unfoldable pub lock_stage : M Stage
lock_stage = do
  tick
  found ← gets (λ w. w.stage)
  s ← give found transfer_io
  tick
  modify (on_stage (λ s. record s { lock = true }))
  require (not s.busy) transfer_busy
  pure s

-- The journal that was read, or the initial one; and whether the second is to be stored.
unfoldable pub choose_journal :
    (missing : Bool) (initial opened : Option Journal) → M (Journal × Bool)
choose_journal missing initial (some j) = pure (j, missing && is_some initial)
choose_journal true (some j) none = pure (j, true)
choose_journal true none none = throw transfer_missing
choose_journal false initial none = throw transfer_io

-- `file.take(16384)`: of a longer journal the JSON is cut short, and does not parse.
unfoldable pub is_readable : (Journal → ℕ) → Journal → Bool
is_readable size j = not (ltb 16384 (size j))

unfoldable pub read_whole : (Journal → ℕ) → Option Journal → M (Unit {0})
unfolding is_readable require
read_whole size none = pure tt
read_whole size (some j) = require (is_readable size j) transfer_io

unfoldable pub load_journal : (Journal → ℕ) → Option Journal → Option Journal → M (Journal × Bool)
unfolding choose_journal read_whole
load_journal size stored initial = do
  looked ← attempt tick
  opened ← attempt (do tick; give stored transfer_io)
  read_whole size opened
  choose_journal (is_some looked && not (is_some stored)) initial opened

module _ (h : Endpoint) where
  open h use {owner, path, token, is_uuid, fresh, journal_size}

  unfoldable pub parent : M (Unit {0})
  unfolding open_parent
  parent = open_parent (components (codes path))

  unfoldable pub stage_name : M (Unit {0})
  stage_name = require (is_uuid token) transfer_token

  unfoldable pub check_cancelled : M (Unit {0})
  check_cancelled w = if w.cancelled then (err transfer_cancelled, w) else (ok tt, w)

  -- The empty path is the root itself, which is opened as it is.
  unfoldable pub stat_parent : Bool → M (Unit {0})
  unfolding parent
  stat_parent true = tick
  stat_parent false = parent

  unfoldable pub find_stamp : M (Option Stamp)
  unfolding stat_parent
  find_stamp = do stat_parent (is_root (codes path)); tick; gets (λ w. Option.map stamp w.entry)

  unfoldable pub stage : Option Journal → M Journal
  unfolding parent stage_name create_for lock_stage load_journal save
  stage initial = do
    parent
    stage_name
    created ← create_for initial
    tick
    when created tick
    s ← lock_stage
    (journal, initialize) ← load_journal journal_size s.state initial
    require (str_eq journal.owner owner && str_eq journal.path path) transfer_owner
    when initialize do
      call (on_stage (λ s. record s { content = some (record { bytes = []; meta = fresh }) }))
      tick
      save journal
      tick
    pure journal
