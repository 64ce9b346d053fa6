-- ===== src/Transfer/Inspect.antt =====
-- crates/transfer/src/inspect.rs: reading a file that must not have changed, its digest, and the
-- metadata that a copy takes over. A digest is computed in one read here, where the code reads
-- block by block and looks at `cancelled` before each.
pub mod Quiet
use remote_codex.Base.{
  ℕ, ◌-◌, ◌/◌, ◌%◌, min, String, Bool, not, ◌&&◌, none, some, List, ltb, ◌==◌, length, take, drop,
}
use remote_codex.Transfer.{
  directory, Stamp, kind_eq, Reply, block, transfer_io, transfer_type, transfer_source_changed,
  transfer_offset, chunk,
}
use remote_codex.Transfer.World.{
  Meta, File, Node, regular, folder, special, World, M, ◌>>=◌, ◌>>◌, pure, throw, when, gets, tick,
  modified, on_content,
}
use remote_codex.Transfer.Stages.{Endpoint, parent, check_cancelled, require, give, call}

-- `set_permissions` and `set_times` with `UNIX_EPOCH + Duration::from_nanos`.
abbrev pub with_mode : Stamp → Meta → Meta
with_mode s m = record m { mode = s.mode % 512 }

abbrev pub with_times : Stamp → Meta → Meta
with_times s m = record m {
  mtime = s.modified_ns / 1000000000;
  mtime_nsec = s.modified_ns % 1000000000;
}

abbrev pub on_meta : (Meta → Meta) → File → File
on_meta g f = record f { meta = g f.meta }

abbrev on_node : (Meta → Meta) → Node → Node
on_node g (regular f) = regular (on_meta g f)
on_node g (folder size m) = folder size (g m)
on_node g (special size m) = special size (g m)

abbrev on_entry : (Meta → Meta) → World → World
on_entry g w = record w { entry = elim w.entry [ none ↦ none | some n ↦ some (on_node g n) ] }

-- `metadata` on the staged file.
unfoldable pub content_metadata : Stamp → M (Unit {0})
content_metadata s = do
  call (on_content (on_meta (with_mode s)))
  call (on_content (on_meta (with_times s)))
  tick

abbrev pub unchanged : Stamp → File → Bool
unchanged expected f =
    length f.bytes == expected.length
    && (f.meta.inode == expected.inode
        && (f.meta.device == expected.device && modified f.meta == expected.modified_ns))

-- `paths::file` and `paths::directory` open nothing else.
unfoldable pub only_file : Node → M File
only_file (regular f) = pure f
only_file (folder size m) = throw transfer_type
only_file (special size m) = throw transfer_type

unfoldable pub only_folder : Node → M (Unit {0})
only_folder (folder size m) = pure tt
only_folder (regular f) = throw transfer_io
only_folder (special size m) = throw transfer_io

module _ (h : Endpoint) where
  open h use {digest}

  unfoldable pub open_entry : M File
  unfolding only_file
  open_entry = do
    parent h
    tick
    found ← gets (λ w. w.entry)
    node ← give found transfer_io
    only_file node

  unfoldable pub open_folder : M (Unit {0})
  unfolding only_folder
  open_folder = do
    parent h
    tick
    found ← gets (λ w. w.entry)
    node ← give found transfer_io
    only_folder node

  unfoldable pub source : Stamp → M File
  unfolding open_entry
  source expected = do
    f ← open_entry
    tick
    require (unchanged expected f) transfer_source_changed
    pure f

  unfoldable pub hash_file : File → M String
  hash_file f = do check_cancelled h; tick; pure (digest f.bytes)

  unfoldable pub read : Stamp → ℕ → M (Reply × List ℕ)
  unfolding source
  read expected offset = do
    require (not (ltb expected.length offset)) transfer_offset
    f ← source expected
    tick
    let bytes = take (min chunk (expected.length - offset)) (drop offset f.bytes)
    tick
    source expected
    pure (block (digest bytes), bytes)

  unfoldable pub hash : Stamp → M String
  unfolding source hash_file
  hash expected = do f ← source expected; d ← hash_file f; source expected; pure d

  -- `metadata` on the destination: a directory, or a regular file.
  unfoldable pub metadata : Stamp → M (Unit {0})
  unfolding open_entry open_folder
  metadata s = do
    when (kind_eq s.kind directory) open_folder
    when (not (kind_eq s.kind directory)) do open_entry; pure tt
    call (on_entry (with_mode s))
    call (on_entry (with_times s))
    tick
