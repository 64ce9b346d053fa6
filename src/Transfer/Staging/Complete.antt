-- ===== src/Transfer/Staging/Complete.antt =====
-- Where no call fails and nobody interferes, the operations of crates/transfer/src/staging.rs do
-- succeed.
use mathlib.Core.Option
use text.Mathlib.Text.{◌==◌ as str_eq}
use remote_codex.Base.{
  ℕ, ◌+◌, ◌≤◌, arith, ◌≡◌, refl, ap, ◌∙◌, String, Bool, true, false, ◌&&◌, Option, none, some, List,
  [], ◌∷◌, ok, err, is_some, length, ◌==◌,
}
use remote_codex.Transfer.{
  transfer_checkpoint, transfer_checksum, transfer_conflict, transfer_owner, Stamp, Reply, ready,
  done,
}
use remote_codex.Transfer.Paths.{codes, components}
use remote_codex.Transfer.World.{
  Meta, File, Node, regular, Journal, Stage, Publication, World, M, ◌>>=◌, ◌>>◌, pure, throw, when,
  gets, modify, on_stage, tick, attempt, next_event, splice, write_all, stamp,
}
use remote_codex.Transfer.Stages.{
  is_root, stat_parent, Endpoint, require, give, call, save, open_content, open_parent, create_for,
  lock_stage, choose_journal, load_journal, read_whole, is_readable, parent, stage_name,
  check_cancelled, find_stamp, stage,
}
use remote_codex.Transfer.Inspect.{with_mode, with_times, content_metadata, hash_file}
use remote_codex.Transfer.Staging.{
  accepts_block, write, commit, check_gone, finish_gone, finish, publish, rename_file, stamps_eq,
}

abbrev pub quiet : Option Node → Stage → List Publication → World
quiet entry s published = record {
  entry = entry;
  stage = some s;
  cancelled = false;
  events = [];
  published = published;
}

abbrev pub any_stage : Option File → Bool → Journal → Stage
any_stage c lock j = record { content = c; state = some j; next = none; lock = lock; busy = false }

abbrev pub held_stage : Bool → List ℕ → Meta → Journal → Stage
held_stage lock bytes m j = any_stage (some (record { bytes = bytes; meta = m })) lock j

pub ok_bind :
    {A B : Type 0} (m : M A) (f : A → M B) {w w' : World} {a : A}
    → m w ≡ (ok a, w')
    → (m >>= f) w ≡ f a w'
unfolding ◌>>=◌
ok_bind m f e = ap (λ r. elim r.0 [ ok a ↦ f a r.1 | err x ↦ (err x, r.1) ]) e

module _ (h : Endpoint) (n : List ℕ) (ns : List (List ℕ)) (uuid : h.is_uuid h.token ≡ true)
    (names : components (codes h.path) ≡ ok (n ∷ ns)) where
  pub parent_quiet : (w : World) → w.events ≡ [] → parent h w ≡ (ok tt, w)
  unfolding parent open_parent tick next_event
  parent_quiet w e = rw names (rw e refl)

  -- The journal can be read again, at each offset that it may come to.
  abbrev pub Readable : Journal → Type 0
  Readable j =
      (offset : ℕ)
      → offset ≤ j.source.length
      → is_readable h.journal_size (record j { offset = offset }) ≡ true

  abbrev pub Owned : Journal → Type 0
  Owned j = (str_eq j.owner h.owner ≡ true) × (str_eq j.path h.path ≡ true) × Readable j

  load_quiet :
      (entry : Option Node) (s : Stage) (j : Journal) (l : List Publication)
      → is_readable h.journal_size j ≡ true
      → load_journal h.journal_size (some j) none (quiet entry s l)
        ≡ (ok (j, false), quiet entry s l)
  unfolding load_journal read_whole choose_journal require give tick next_event ◌>>=◌ ◌>>◌ pure
      throw attempt
  load_quiet entry s j l whole = rw whole refl

  -- `stage` from the journal on.
  abbrev loaded_rest : Journal × Bool → M Journal
  loaded_rest (j, initialize) =
      require (str_eq j.owner h.owner && str_eq j.path h.path) transfer_owner
      >> (when initialize (
            call
              (on_stage (λ s. record s { content = some (record { bytes = []; meta = h.fresh }) }))
            >> (tick >> (save j >> tick)))
          >> pure j)

  stage_first :
      (c : Option File) (lock : Bool) (entry : Option Node) (j : Journal) (l : List Publication)
      → stage h none (quiet entry (any_stage c lock j) l)
        ≡ (load_journal h.journal_size (some j) none >>= loaded_rest)
            (quiet entry (any_stage c true j) l)
  unfolding stage stage_name create_for lock_stage parent open_parent require give tick next_event
      ◌>>=◌ ◌>>◌ pure throw gets modify when
  stage_first c lock entry j l = rw names (rw uuid refl)

  loaded_quiet : (j : Journal) (w : World) → Owned j → loaded_rest (j, false) w ≡ (ok j, w)
  unfolding require ◌>>◌ pure when
  loaded_quiet j w (own, path, readable) = rw own (rw path refl)

  pub stage_quiet :
      (c : Option File) (lock : Bool) (entry : Option Node) (j : Journal) (l : List Publication)
      → Owned j
      → j.offset ≤ j.source.length
      → stage h none (quiet entry (any_stage c lock j) l)
        ≡ (ok j, quiet entry (any_stage c true j) l)
  stage_quiet c lock entry j l own low =
      let there = quiet entry (any_stage c true j) l in
      stage_first c lock entry j l
      ∙ (ok_bind (load_journal h.journal_size (some j) none) loaded_rest
            (load_quiet entry (any_stage c true j) j l (own.2 j.offset low))
          ∙ loaded_quiet j there own)

  not_root : (path : List ℕ) → components path ≡ ok (n ∷ ns) → is_root path ≡ false
  unfolding components
  not_root [] e = absurd (cc)
  not_root (c ∷ path) e = refl

  pub find_stamp-quiet :
      (entry : Option Node) (s : Stage) (l : List Publication)
      → find_stamp h (quiet entry s l) ≡ (ok (Option.map stamp entry), quiet entry s l)
  unfolding find_stamp stat_parent parent open_parent tick next_event ◌>>=◌ ◌>>◌ gets
  find_stamp-quiet entry s l = rw (not_root (codes h.path) names) (rw names refl)

  -- `write` after its journal is there.
  write_checked :
      (entry : Option Node) (bytes : List ℕ) (m : Meta) (j : Journal) (l : List Publication)
      (offset : ℕ) (named : String) (block : List ℕ)
      → accepts_block h.digest j offset named block ≡ true
      → (require (accepts_block h.digest j offset named block) transfer_checkpoint
            >> (open_content
                >> (write_all offset block
                    >> (tick
                        >> (save (record j { offset = j.offset + length block })
                            >> pure (ready (j.offset + length block) false))))))
          (quiet entry (held_stage true bytes m j) l)
        ≡ (
          ok (ready (j.offset + length block) false),
          quiet entry
              (held_stage true
                (splice offset block bytes)
                m
                (record j { offset = j.offset + length block }))
              l,
        )
  unfolding save open_content require give call tick next_event ◌>>=◌ ◌>>◌ pure throw gets modify
      write_all
  write_checked entry bytes m j l offset named block accepted = rw accepted refl

  within :
      (j : Journal) (offset : ℕ) (named : String) (block : List ℕ)
      → accepts_block h.digest j offset named block ≡ true
      → j.offset ≤ j.source.length
  unfolding accepts_block
  within j offset named block accepted = ground arith

  pub write-quiet :
      (entry : Option Node) (bytes : List ℕ) (m : Meta) (j : Journal) (l : List Publication)
      (offset : ℕ) (named : String) (block : List ℕ)
      → Owned j
      → accepts_block h.digest j offset named block ≡ true
      → write h offset named block (quiet entry (held_stage true bytes m j) l) ≡ (
        ok (ready (j.offset + length block) false),
        quiet entry
            (held_stage true
              (splice offset block bytes)
              m
              (record j { offset = j.offset + length block }))
            l,
      )
  unfolding write
  write-quiet entry bytes m j l offset named block own accepted =
      ok_bind _ _ (
        stage_quiet (some (record { bytes = bytes; meta = m })) true entry j l own
          (within j offset named block accepted))
      ∙ write_checked entry bytes m j l offset named block accepted

  -- The file as it is put in place, and the disk then.
  abbrev pub finished : Journal → List ℕ → Meta → File
  finished j bytes m = record { bytes = bytes; meta = with_times j.source (with_mode j.source m) }

  abbrev pub after_commit : Journal → List ℕ → Meta → String → List Publication → World
  after_commit j bytes m named l =
      quiet (some (regular (finished j bytes m)))
        (record {
          content = none;
          state = some (record j { digest = some named; committed = true });
          next = none;
          lock = true;
          busy = false;
        })
        (record { replaced = none; placed = finished j bytes m } ∷ l)

  -- The staged file with its metadata, under the journal with the digest.
  abbrev dressed : Journal → List ℕ → Meta → String → List Publication → World
  dressed j bytes m named l =
      quiet none
        (record {
          content = some (finished j bytes m);
          state = some (record j { digest = some named });
          next = none;
          lock = true;
          busy = false;
        })
        l

  abbrev publish_rest : Journal → Option Stamp → M Reply
  publish_rest checked again =
      require (stamps_eq again checked.expected) transfer_conflict
      >> (publish (is_some checked.expected)
          >> (tick >> (save (record checked { committed = true }) >> pure done)))

  abbrev publish_part : Journal → M Reply
  publish_part checked = parent h >> (find_stamp h >>= publish_rest checked)

  publish_last :
      (bytes : List ℕ) (m : Meta) (j : Journal) (named : String) (l : List Publication)
      → j.expected ≡ none
      → publish_rest (record j { digest = some named }) none (dressed j bytes m named l)
        ≡ (ok done, after_commit j bytes m named l)
  unfolding save publish rename_file require tick next_event ◌>>=◌ ◌>>◌ pure call modify
  publish_last bytes m j named l expected = rw expected refl

  publish_quiet :
      (bytes : List ℕ) (m : Meta) (j : Journal) (named : String) (l : List Publication)
      → j.expected ≡ none
      → publish_part (record j { digest = some named }) (dressed j bytes m named l)
        ≡ (ok done, after_commit j bytes m named l)
  unfolding ◌>>◌
  publish_quiet bytes m j named l expected =
      let checked : Journal = record j { digest = some named } in
      ok_bind (parent h) (λ _. find_stamp h >>= publish_rest checked)
        (parent_quiet (dressed j bytes m named l) refl)
      ∙ (ok_bind (find_stamp h) (publish_rest checked) (
            find_stamp-quiet none
              (record {
                content = some (finished j bytes m);
                state = some checked;
                next = none;
                lock = true;
                busy = false;
              })
              l)
          ∙ publish_last bytes m j named l expected)

  abbrev finish_rest : Journal → String → Option Stamp → M Reply
  finish_rest j named found =
      require (j.offset == j.source.length && stamps_eq found j.expected) transfer_conflict
      >> (open_content >>= λ f.
          (hash_file h f >>= λ d.
          (require (str_eq d named) transfer_checksum
            >> (content_metadata j.source
                >> (save (record j { digest = some named })
                    >> publish_part (record j { digest = some named }))))))

  finish_first :
      (bytes : List ℕ) (m : Meta) (j : Journal) (named : String) (l : List Publication)
      → j.expected ≡ none
      → (j.offset == j.source.length) ≡ true
      → str_eq (h.digest bytes) named ≡ true
      → finish_rest j named none (quiet none (held_stage true bytes m j) l)
        ≡ publish_part (record j { digest = some named }) (dressed j bytes m named l)
  unfolding save open_content hash_file check_cancelled content_metadata require give tick
      next_event ◌>>=◌ ◌>>◌ pure call modify gets
  finish_first bytes m j named l expected whole same = rw whole (rw expected (rw same refl))

  finish-quiet :
      (bytes : List ℕ) (m : Meta) (j : Journal) (named : String) (l : List Publication)
      → j.expected ≡ none
      → (j.offset == j.source.length) ≡ true
      → str_eq (h.digest bytes) named ≡ true
      → finish h j named (quiet none (held_stage true bytes m j) l)
        ≡ (ok done, after_commit j bytes m named l)
  unfolding finish
  finish-quiet bytes m j named l expected whole same =
      ok_bind (find_stamp h) (finish_rest j named)
        (find_stamp-quiet none (held_stage true bytes m j) l)
      ∙ (finish_first bytes m j named l expected whole same
          ∙ publish_quiet bytes m j named l expected)

  check_gone_quiet :
      (j : Journal) (w : World)
      → j.digest ≡ none
      → check_gone h (is_some j.digest) w ≡ (ok false, w)
  unfolding check_gone pure
  check_gone_quiet j w e = rw e refl

  pub commit-quiet :
      (bytes : List ℕ) (m : Meta) (j : Journal) (named : String) (l : List Publication)
      → Owned j
      → j.digest ≡ none
      → j.expected ≡ none
      → (j.offset == j.source.length) ≡ true
      → str_eq (h.digest bytes) named ≡ true
      → commit h named (quiet none (held_stage true bytes m j) l)
        ≡ (ok done, after_commit j bytes m named l)
  unfolding commit finish_gone
  commit-quiet bytes m j named l own digest expected whole same =
      ok_bind (stage h none) (λ j. check_gone h (is_some j.digest) >>= finish_gone h j named)
        (stage_quiet (some (record { bytes = bytes; meta = m })) true none j l own (ground arith))
      ∙ (ok_bind (check_gone h (is_some j.digest)) (finish_gone h j named)
            (check_gone_quiet j (quiet none (held_stage true bytes m j) l) digest)
          ∙ finish-quiet bytes m j named l expected whole same)
