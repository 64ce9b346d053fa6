-- ===== src/Transfer/Staging.antt =====
-- crates/transfer/src/staging.rs: a file is staged block by block under its journal, checked, and
-- put in place by one rename.
pub mod Checkpoint
pub mod Resume
pub mod Publication
pub mod Commit
pub mod Keep
pub mod Safety
pub mod Complete
pub mod Again
pub mod Arrival
use text.Mathlib.Text.{◌==◌ as str_eq}
use remote_codex.Base.{
  ℕ, ◌+◌, String, Bool, true, false, not, ◌&&◌, Option, none, some, List, ◌∷◌, ok, err,
  if◌then◌else◌, ltb, ◌==◌, length, take, is_some,
}
use remote_codex.Transfer.{
  file, Stamp, kind_eq, stamp_eq, option_eq, Reply, ready, done, transfer_io, transfer_type,
  transfer_conflict, transfer_checkpoint, transfer_checksum, transfer_source_changed, chunk,
}
use remote_codex.Transfer.World.{
  File, Node, regular, folder, special, Journal, World, M, ◌>>=◌, ◌>>◌, pure, when, gets, tick,
  attempt, on_stage, on_content, content_of, write_all,
}
use remote_codex.Transfer.Stages.{
  Endpoint, parent, stage_name, find_stamp, save, open_content, content_gone, stage, require, give,
  call,
}
use remote_codex.Transfer.Inspect.{hash, hash_file, content_metadata}

abbrev pub stamps_eq : Option Stamp → Option Stamp → Bool
stamps_eq = option_eq stamp_eq

abbrev pub digests_eq : Option String → Option String → Bool
digests_eq = option_eq str_eq

-- `renameat_with(NOREPLACE)` of the staged file onto the destination where none is expected, and
-- `rename` elsewhere, which replaces anything but a directory.
abbrev renamed : File → World → World
renamed f w = record w {
  entry = some (regular f);
  stage = elim w.stage [ none ↦ none | some s ↦ some (record s { content = none }) ];
  published = record { replaced = w.entry; placed = f } ∷ w.published;
}

abbrev allows : Bool → Option Node → Bool
allows replacing none = true
allows replacing (some (regular f)) = replacing
allows replacing (some (folder size m)) = false
allows replacing (some (special size m)) = replacing

unfoldable pub rename_file : Bool → Option File → M (Unit {0})
rename_file replacing none w = (err transfer_io, w)
rename_file replacing (some f) w =
    if allows replacing w.entry then (ok tt, renamed f w) else (err transfer_io, w)

unfoldable pub publish : Bool → M (Unit {0})
unfolding rename_file
publish replacing = do tick; (λ w. rename_file replacing (content_of w) w)

-- The checks of `write` on a block.
unfoldable pub accepts_block : (List ℕ → String) → Journal → ℕ → String → List ℕ → Bool
accepts_block digest j offset named bytes =
    not j.committed
    && (not (length bytes == 0)
        && (not (ltb chunk (length bytes))
            && (offset == j.offset
                && (not (ltb j.source.length (offset + length bytes))
                    && str_eq (digest bytes) named))))

module _ (h : Endpoint) where
  open h use {owner, path, digest}

  unfoldable pub reconcile : Journal → M Journal
  reconcile j = do
    found ← find_stamp h
    s ← give found transfer_conflict
    require (kind_eq s.kind file && s.length == j.source.length) transfer_conflict
    d ← hash h s
    require (digests_eq (some d) j.digest) transfer_conflict
    let settled : Journal = record j { committed = true }
    save settled
    pure settled

  -- The second half of `prepare`: what is staged beyond the checkpoint is cut off.
  unfoldable pub cut_back : Journal → M (Unit {0})
  cut_back j = do
    f ← open_content
    tick
    require (not (ltb (length f.bytes) j.offset)) transfer_checkpoint
    when (ltb j.offset (length f.bytes))
        do open_content; call (on_content (λ f. record f { bytes = take j.offset f.bytes }))

  unfoldable pub settle_gone : Journal → (gone : Bool) → M Journal
  settle_gone j true = reconcile j
  settle_gone j false = pure j

  unfoldable pub settle_digest : Journal → (published : Bool) → M Journal
  unfolding settle_gone reconcile
  settle_digest j false = pure j
  settle_digest j true = do gone ← content_gone; settle_gone j gone

  unfoldable pub settle : Journal → M Journal
  unfolding settle_digest
  settle j = settle_digest j (is_some j.digest)

  unfoldable pub prepare : Stamp → Option Stamp → M Reply
  unfolding settle cut_back
  prepare source expected = do
    require (kind_eq source.kind file) transfer_type
    let initial : Journal = record {
      owner = owner;
      path = path;
      source = source;
      expected = expected;
      offset = 0;
      digest = none;
      committed = false;
    }
    stored ← stage h (some initial)
    require (stamp_eq stored.source source && stamps_eq stored.expected expected)
        transfer_source_changed
    j ← settle stored
    when (not j.committed)
        do found ← find_stamp h; require (stamps_eq found expected) transfer_conflict; cut_back j
    pure (ready j.offset j.committed)

  unfoldable pub write : ℕ → String → List ℕ → M Reply
  unfolding accepts_block
  write offset named bytes = do
    j ← stage h none
    require (accepts_block digest j offset named bytes) transfer_checkpoint
    open_content
    write_all offset bytes
    tick
    let moved : Journal = record j { offset = j.offset + length bytes }
    save moved
    pure (ready moved.offset false)

  -- The part of `commit` after the staged file is found in its place.
  unfoldable pub finish : Journal → String → M Reply
  unfolding publish
  finish j named = do
    found ← find_stamp h
    require (j.offset == j.source.length && stamps_eq found j.expected) transfer_conflict
    f ← open_content
    d ← hash_file h f
    require (str_eq d named) transfer_checksum
    content_metadata j.source
    let checked : Journal = record j { digest = some named }
    save checked
    parent h
    again ← find_stamp h
    require (stamps_eq again checked.expected) transfer_conflict
    publish (is_some checked.expected)
    tick
    save (record checked { committed = true })
    pure done

  unfoldable pub check_gone : (published : Bool) → M Bool
  check_gone true = content_gone
  check_gone false = pure false

  unfoldable pub finish_gone : Journal → String → (gone : Bool) → M Reply
  unfolding finish reconcile
  finish_gone j named true = do reconcile j; pure done
  finish_gone j named false = finish j named

  unfoldable pub commit : String → M Reply
  unfolding check_gone finish_gone
  commit named = do j ← stage h none; gone ← check_gone (is_some j.digest); finish_gone j named gone

  unfoldable pub remove_stage : (missing : Bool) → M Reply
  remove_stage true = pure done
  remove_stage false = do
    stage h none
    call (on_stage (λ s. record s { content = none }))
    call (on_stage (λ s. record s { next = none }))
    call (on_stage (λ s. record s { state = none }))
    call (on_stage (λ s. record s { lock = false }))
    call (λ w. record w { stage = none })
    tick
    pure done

  unfoldable pub cancel : M Reply
  unfolding remove_stage
  cancel = do
    parent h
    stage_name h
    looked ← attempt tick
    found ← gets (λ w. w.stage)
    remove_stage (is_some looked && not (is_some found))
