-- ===== src/Transfer/Staging/Arrival.antt =====
-- A whole transfer to an endpoint of crates/transfer/src, where no call fails and nobody interferes:
-- `prepare`, `write` for each block in order, and `commit`, as crates/client/src/transfers/copy.rs
-- sends them.
use mathlib.Core.Path.{subst}
use mathlib.Core.List.{append_assoc, append-nil}
use text.Mathlib.Text.{◌==◌ as str_eq}
use text.Mathlib.TextEquality.{eq_iff}
use remote_codex.Base.{
  ℕ, zero, suc, ◌+◌, ◌-◌, ◌≤◌, ◌≡◌, refl, sym, ap, ◌∙◌, String, Bool, true, false, not, ◌&&◌,
  Option, none, some, List, [], ◌∷◌, ◌++◌, Result, ok, length, drop, length-append, take_all, ltb,
  ◌==◌, all, arith,
}
use remote_codex.Transfer.{
  file, directory, unsupported, Kind, Stamp, kind_eq, stamp_eq, Reply, ready, done, chunk, Fault,
  transfer_type, transfer_source_changed, transfer_conflict,
}
use remote_codex.Transfer.Paths.{codes, components}
use remote_codex.Transfer.World.{
  Meta, Journal, Publication, World, M, ◌>>=◌, ◌>>◌, pure, throw, when, gets, modify, tick, attempt,
  next_event, splice,
}
use remote_codex.Transfer.Stages.{
  Endpoint, require, give, call, save, open_content, open_parent, make_stage, create_stage,
  create_for, lock_stage, choose_journal, load_journal, read_whole, is_readable, parent, stage_name,
  find_stamp, stage,
}
use remote_codex.Transfer.Staging.{
  accepts_block, stamps_eq, write, commit, prepare, settle, settle_digest, cut_back,
}
use remote_codex.Transfer.Inspect.{with_mode, with_times}
use remote_codex.Transfer.Staging.Complete.{
  quiet, held_stage, Owned, Readable, finished, ok_bind, find_stamp-quiet, write-quiet,
  commit-quiet,
}

-- A disk with nothing at the destination, and nothing staged.
abbrev pub empty_disk : List Publication → World
empty_disk l = record { entry = none; stage = none; cancelled = false; events = []; published = l }

pub str_eq_refl : (s : String) → str_eq s s ≡ true
str_eq_refl s = (eq_iff s s).1 refl

nat_refl : (n : ℕ) → (n == n) ≡ true
nat_refl n = ground arith

kind_refl : (k : Kind) → kind_eq k k ≡ true
kind_refl file = refl
kind_refl directory = refl
kind_refl unsupported = refl

stamp_refl : (s : Stamp) → stamp_eq s s ≡ true
stamp_refl s = rw (kind_refl s.kind) (ground arith)

require_ok : (b : Bool) (e : Fault) (w : World) → b ≡ true → require b e w ≡ (ok tt, w)
unfolding require pure
require_ok b e w same = rw same refl

-- A block after the end of a file.
pub drop_all : (n : ℕ) (xs : List ℕ) → length xs ≤ n → drop n xs ≡ []
drop_all zero [] e = refl
drop_all zero (x ∷ xs) e = absurd (omega arith)
drop_all (suc n) [] e = refl
drop_all (suc n) (x ∷ xs) e = drop_all n xs (omega arith)

pub splice-end : (block bytes : List ℕ) → splice (length bytes) block bytes ≡ bytes ++ block
unfolding splice
splice-end [] bytes = sym (append-nil bytes)
splice-end (b ∷ bs) bytes =
    let nothing : length bytes - length bytes ≡ 0 = omega arith in
    let past : length bytes ≤ length bytes + suc (length bs) = omega arith in
    rw (take_all (length bytes) bytes (omega arith)) (
      rw nothing (
        rw (drop_all (length bytes + suc (length bs)) bytes past)
          (ap (λ x. bytes ++ (b ∷ x)) (append-nil bs))))

-- The blocks in order, and then the commit.
unfoldable pub upload : Endpoint → ℕ → List (List ℕ) → String → M Reply
upload h offset [] named = commit h named
upload h offset (block ∷ blocks) named =
    write h offset (h.digest block) block >>= λ reply. upload h (offset + length block) blocks named

abbrev pub joined : List (List ℕ) → List ℕ
joined [] = []
joined (block ∷ blocks) = block ++ joined blocks

-- A block that a reader sends.
abbrev pub is_block : List ℕ → Bool
is_block block = not (length block == 0) && not (ltb chunk (length block))

module _ (h : Endpoint) (n : List ℕ) (ns : List (List ℕ)) (uuid : h.is_uuid h.token ≡ true)
    (names : components (codes h.path) ≡ ok (n ∷ ns)) where
  abbrev pub initial : Stamp → Journal
  initial source = record {
    owner = h.owner;
    path = h.path;
    source = source;
    expected = none;
    offset = 0;
    digest = none;
    committed = false;
  }

  pub initial-Owned :
      (source : Stamp)
      → Readable h n ns uuid names (initial source)
      → Owned h n ns uuid names (initial source)
  initial-Owned source readable = (str_eq_refl h.owner, str_eq_refl h.path, readable)

  abbrev pub prepared : Stamp → List Publication → World
  prepared source l = quiet none (held_stage true [] h.fresh (initial source)) l

  stage_fresh :
      (source : Stamp) (l : List Publication)
      → stage h (some (initial source)) (empty_disk l) ≡ (ok (initial source), prepared source l)
  unfolding stage stage_name create_for create_stage make_stage lock_stage load_journal read_whole
      choose_journal save parent open_parent require give call tick next_event ◌>>=◌ ◌>>◌ pure throw
      gets modify attempt when
  stage_fresh source l =
      rw names (rw uuid (rw (str_eq_refl h.owner) (rw (str_eq_refl h.path) refl)))

  abbrev match_rest : Journal → Option Stamp → M (Unit {0})
  match_rest j found = require (stamps_eq found none) transfer_conflict >> cut_back h j

  abbrev settle_rest : Journal → M Reply
  settle_rest j =
      when (not j.committed) (find_stamp h >>= match_rest j) >> pure (ready j.offset j.committed)

  abbrev stored_rest : Stamp → Journal → M Reply
  stored_rest source stored =
      require (stamp_eq stored.source source && stamps_eq stored.expected none)
        transfer_source_changed
      >> (settle h stored >>= settle_rest)

  match_quiet :
      (source : Stamp) (l : List Publication)
      → (find_stamp h >>= match_rest (initial source)) (prepared source l)
        ≡ (ok tt, prepared source l)
  unfolding cut_back open_content require give tick next_event ◌>>=◌ ◌>>◌ pure when gets
  match_quiet source l =
      ok_bind (find_stamp h) (match_rest (initial source))
        (find_stamp-quiet h n ns uuid names none (held_stage true [] h.fresh (initial source)) l)

  settle_quiet :
      (source : Stamp) (l : List Publication)
      → (settle h (initial source) >>= settle_rest) (prepared source l)
        ≡ (ok (ready 0 false), prepared source l)
  unfolding settle settle_digest pure when ◌>>◌
  settle_quiet source l =
      ok_bind (pure (initial source)) settle_rest refl
      ∙ ok_bind (find_stamp h >>= match_rest (initial source)) (λ _. pure (ready 0 false))
          (match_quiet source l)

  pub prepare_quiet :
      (source : Stamp) (l : List Publication)
      → kind_eq source.kind file ≡ true
      → prepare h source none (empty_disk l) ≡ (ok (ready 0 false), prepared source l)
  unfolding prepare ◌>>◌
  prepare_quiet source l is_file =
      ok_bind (require (kind_eq source.kind file) transfer_type)
        (λ _. stage h (some (initial source)) >>= stored_rest source)
        (require_ok (kind_eq source.kind file) transfer_type (empty_disk l) is_file)
      ∙ (ok_bind (stage h (some (initial source))) (stored_rest source) (stage_fresh source l)
          ∙ (ok_bind (require (stamp_eq source source && true) transfer_source_changed)
                (λ _. settle h (initial source) >>= settle_rest)
                (require_ok (stamp_eq source source && true) transfer_source_changed
                  (prepared source l) (ap (λ b. b && true) (stamp_refl source)))
              ∙ settle_quiet source l))

  pub accepted :
      (j : Journal) (block : List ℕ)
      → j.committed ≡ false
      → is_block block ≡ true
      → j.offset + length block ≤ j.source.length
      → accepts_block h.digest j j.offset (h.digest block) block ≡ true
  unfolding accepts_block
  accepted j block open_journal good room = rw (str_eq_refl (h.digest block)) (ground arith)

  -- The reply and the publication of a whole upload.
  abbrev Arrives : Journal → List ℕ → Meta → List Publication → Result Fault Reply × World → Type 0
  Arrives j bytes m l r =
      (r.0 ≡ ok done)
      × (r.1.published
          ≡ record { replaced = none; placed = finished h n ns uuid names j bytes m } ∷ l)

  upload-quiet :
      (blocks : List (List ℕ)) (before : List ℕ) (m : Meta) (j : Journal) (named : String)
      (l : List Publication)
      → Owned h n ns uuid names j
      → j.digest ≡ none
      → j.expected ≡ none
      → j.committed ≡ false
      → j.offset ≡ length before
      → length before + length (joined blocks) ≡ j.source.length
      → all is_block blocks ≡ true
      → str_eq (h.digest (before ++ joined blocks)) named ≡ true
      → Arrives j
          (before ++ joined blocks)
          m
          l
          (upload h j.offset blocks named (quiet none (held_stage true before m j) l))
  unfolding upload
  upload-quiet [] before m j named l own digest expected open_journal at total good same =
      let here : before ++ [] ≡ before = append-nil before in
      let done_here =
        commit-quiet h n ns uuid names before m j named l own digest expected
          (whole j.offset (length before) j.source.length at total)
          (subst (λ x. str_eq (h.digest x) named ≡ true) here same) in
      subst (λ x. Arrives j x m l (commit h named (quiet none (held_stage true before m j) l)))
        (sym here) (ap (λ r. r.0) done_here, ap (λ r. r.1.published) done_here)
    where
      whole : (o b s : ℕ) → o ≡ b → b + 0 ≡ s → (o == s) ≡ true
      whole o b s e f = ground arith
  upload-quiet (block ∷ blocks) before m j named l own digest expected open_journal at total good
        same =
      let next : Journal = record j { offset = j.offset + length block } in
      let longer = before ++ block in
      let disk : List ℕ → World = λ x. quiet none (held_stage true x m next) l in
      let sizes = length-append block (joined blocks) in
      let wrote =
        ok_bind (write h j.offset (h.digest block) block)
          (λ reply. upload h (j.offset + length block) blocks named)
          (write-quiet h n ns uuid names none before m j l j.offset (h.digest block) block own
            (accepted j block open_journal (ground arith) (omega (arith, sizes)))) in
      let spliced : splice j.offset block before ≡ longer =
        ap (λ o. splice o block before) at ∙ splice-end block before in
      let all_of : longer ++ joined blocks ≡ before ++ (block ++ joined blocks) =
        append_assoc before block (joined blocks) in
      let rest =
        upload-quiet blocks longer m next named l own digest expected open_journal
          (omega (arith, length-append before block))
          (omega (arith, sizes, length-append before block)) (ground arith)
          (subst (λ x. str_eq (h.digest x) named ≡ true) (sym all_of) same) in
      subst (Arrives j (before ++ (block ++ joined blocks)) m l)
        (ap (λ x. upload h (j.offset + length block) blocks named (disk x)) (sym spliced)
          ∙ sym wrote)
        (subst
          (λ x. Arrives j x m l (upload h (j.offset + length block) blocks named (disk longer)))
          all_of rest)

  -- Where no call fails and nobody interferes, a token that parses, a path with at least one name and
  -- a journal that is at most 16384 bytes of JSON at every offset give a whole transfer of a regular file to a destination that does not exist: `prepare`
  -- answers to start at 0, and then the blocks, none empty or over 256 KiB and together as long as
  -- the source, and the commit of their digest are accepted, and put in place a file of exactly
  -- these bytes, with the source's mode and time.
  pub transfer_arrives :
      (source : Stamp) (blocks : List (List ℕ)) (l : List Publication)
      → kind_eq source.kind file ≡ true
      → all is_block blocks ≡ true
      → length (joined blocks) ≡ source.length
      → ((offset : ℕ)
          → offset ≤ source.length
          → is_readable h.journal_size (record {
            owner = h.owner;
            path = h.path;
            source = source;
            expected = none;
            offset = offset;
            digest = none;
            committed = false;
          })
            ≡ true)
      → let start = prepare h source none (empty_disk l) in
        let sent = upload h 0 blocks (h.digest (joined blocks)) start.1 in
        (start.0 ≡ ok (ready 0 false))
        × (sent.0 ≡ ok done)
        × (sent.1.published
            ≡ record {
              replaced = none;
              placed = record {
                bytes = joined blocks;
                meta = with_times source (with_mode source h.fresh);
              };
            }
              ∷ l)
  transfer_arrives source blocks l is_file good total readable =
      let started = prepare_quiet source l is_file in
      let sent =
        upload-quiet blocks [] h.fresh (initial source) (h.digest (joined blocks)) l
          (initial-Owned source readable) refl refl refl refl (omega arith) good
          (str_eq_refl (h.digest (joined blocks))) in
      let arrived =
        subst (Arrives (initial source) (joined blocks) h.fresh l)
          (ap (λ r. upload h 0 blocks (h.digest (joined blocks)) r.1) (sym started)) sent in
      (ap (λ r. r.0) started, arrived.0, arrived.1)
