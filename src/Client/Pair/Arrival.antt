-- ===== src/Client/Pair/Arrival.antt =====
-- A whole copy of crates/client/src/transfers/copy.rs between two endpoints of crates/transfer/src,
-- where no call fails and nobody interferes.
use mathlib.Core.Path.{subst}
use package.text.Mathlib.Text.{◌==◌ as str_eq}
use remote_codex.Base.{
  ℕ, String, ◌≡◌, refl, sym, ap, ◌∙◌, Bool, true, false, ◌&&◌, Option, none, List, [], ◌∷◌, Result,
  ok, err, ◌==◌, length, ◌≤◌, take_all, arith,
}
use remote_codex.Transfer.{Fault, ready, hash, done, file, kind_eq}
use remote_codex.Transfer.Paths.{codes, components}
use remote_codex.Transfer.World.{File, Journal, Stage, Publication, World}
use remote_codex.Transfer.Stages.{Endpoint, is_readable}
use remote_codex.Transfer.Inspect.{unchanged, with_mode, with_times}
use remote_codex.Transfer.Staging
use remote_codex.Transfer.Staging.Complete.{quiet, held_stage, after_commit, commit-quiet}
use remote_codex.Transfer.Staging.Arrival.{
  empty_disk, initial, initial-Owned, prepare_quiet, str_eq_refl,
}
use remote_codex.Exec.Triples.{
  Outcome, Triple, seq, weaken, known, modify_lem, gets_then, passes, pure_then,
}
use remote_codex.Config.Text.{text_eq}
use remote_codex.Session.Errors.{ClientError}
use remote_codex.Client.Tasks.{Item}
use remote_codex.Client.Peers.{prepares, hashes, commits, Answer, Outside, Client}
use remote_codex.Client.Copy
use remote_codex.Client.Copy.{as_ready, as_hash, seal, send}
use remote_codex.Client.Copy.Calls.{fixed}
use remote_codex.Client.Pair.{answered, serve, pair}
use remote_codex.Client.Pair.Quiet.{holding, dispatch-prepares, dispatch-hashes, dispatch-commits}
use remote_codex.Client.Pair.Rounds.{
  On, Never, call_then, call_quiet, keep_quiet, at_ends, loop_goes,
}

nat_refl : (n : ℕ) → (n == n) ≡ true
nat_refl n = ground arith

module _ (refuse : Fault → ClientError) (elsewhere : ClientError) (hs hd : Endpoint) (f : File)
    (item : Item) (l : List Publication) (n n' : List ℕ) (ns ns' : List (List ℕ))
    (names : components (codes hs.path) ≡ ok (n ∷ ns))
    (names' : components (codes hd.path) ≡ ok (n' ∷ ns')) (uuid : hd.is_uuid hd.token ≡ true)
    (alike : hs.digest ≡ hd.digest) (s : Option Stage) (before : List Publication)
    (source_is : text_eq item.source (codes hs.path) ≡ true)
    (target_is : (text_eq item.target (codes hd.path) && str_eq item.token hd.token) ≡ true)
    (same : unchanged item.stamp f ≡ true) (is_file : kind_eq item.stamp.kind file ≡ true)
    (fresh : item.expected ≡ none)
    (readable : (offset : ℕ)
      → offset ≤ item.stamp.length
      → is_readable hd.journal_size (record {
        owner = hd.owner;
        path = hd.path;
        source = item.stamp;
        expected = none;
        offset = offset;
        digest = none;
        committed = false;
      })
        ≡ true) where
  abbrev journal : Journal
  journal = initial hd n' ns' uuid names' item.stamp

  abbrev disks_at : ℕ → World × World
  disks_at offset =
      at_ends refuse elsewhere hs hd f item hd.fresh journal l n n' ns ns' names names' uuid alike
        (initial-Owned hd n' ns' uuid names' item.stamp readable) refl s before offset

  sized : length f.bytes ≡ item.stamp.length
  sized = ground arith

  abbrev arrived : World
  arrived =
      after_commit hd n' ns' uuid names' (record journal { offset = item.stamp.length }) f.bytes
        hd.fresh (hd.digest f.bytes) l

  abbrev pair_here : Outside (World × World)
  pair_here = pair refuse elsewhere hs hd

  -- The first call, for an item as the loop has it.
  abbrev Prepares : Item → Type 0
  Prepares i =
      pair_here.ask false i.root (prepares i.target i.token i.stamp i.expected) []
        (holding f s before, empty_disk l)
      ≡ (ok (ready 0 false, []), disks_at 0)

  ask-Prepares : Prepares item
  unfolding serve
  ask-Prepares = rw target_is (
      rw fresh (
        ap (λ (r : Answer × World). (r.0, (holding f s before, r.1)))
          (ap (answered refuse) (
            dispatch-prepares hd (empty_disk l) (disks_at 0).1 (ready 0 false) item.stamp none
              (prepare_quiet hd n' ns' uuid names' item.stamp l is_file)))))

  abbrev Hashes : Item → Type 0
  Hashes i =
      pair_here.ask true i.root (hashes i.source i.stamp) [] (disks_at item.stamp.length)
      ≡ (ok (hash (hd.digest f.bytes), []), disks_at item.stamp.length)

  ask-Hashes : Hashes item
  unfolding serve
  ask-Hashes =
      rw source_is (
        ap (λ (r : Answer × World). (r.0, (r.1, (disks_at item.stamp.length).1)))
          (ap (answered refuse) (dispatch-hashes hs n ns names f item.stamp same s before)))
      ∙ ap
          (λ (digest : List ℕ → String).
            (ok (hash (digest f.bytes), []), disks_at item.stamp.length))
          alike

  abbrev Commits : Item → Type 0
  Commits i =
      pair_here.ask false i.root (commits i.target i.token (hd.digest f.bytes)) []
        (disks_at item.stamp.length)
      ≡ (ok (done, []), (holding f s before, arrived))

  ask-Commits : Commits item
  unfolding serve
  ask-Commits = rw target_is (
      ap (λ (r : Answer × World). (r.0, (holding f s before, r.1)))
        (ap (answered refuse) (
          dispatch-commits hd (disks_at item.stamp.length).1 arrived done (hd.digest f.bytes) (
            subst
              (λ (bytes : List ℕ).
                Staging.commit hd (hd.digest f.bytes) (
                  quiet none
                    (held_stage true bytes hd.fresh (record journal { offset = item.stamp.length }))
                    l)
                ≡ (ok done, arrived))
              (sym (take_all item.stamp.length f.bytes (omega (arith, sized))))
              (commit-quiet hd n' ns' uuid names' f.bytes hd.fresh
                (record journal { offset = item.stamp.length }) (hd.digest f.bytes) l
                (initial-Owned hd n' ns' uuid names' item.stamp readable) refl refl
                (nat_refl item.stamp.length) (str_eq_refl (hd.digest f.bytes)))))))

  seal_goes :
      Triple
        (On (disks_at item.stamp.length) item)
        (seal pair_here)
        (λ _. On (holding f s before, arrived) item)
        Never
  unfolding seal as_hash
  seal_goes = seq (On (disks_at item.stamp.length) item) (modify_lem _ (λ c p. p)) (
      gets_then (λ c. c.item)
        (λ it.
          weaken (λ c p. (ap fixed p.1 ∙ p.0.1, p.0))
            (known (λ (here : fixed it ≡ item).
              call_then pair_here item _ true it.root (hashes it.source it.stamp) []
                (disks_at item.stamp.length) (disks_at item.stamp.length)
                (hash (hd.digest f.bytes), []) (subst Hashes (sym here) ask-Hashes)
                (pure_then (hd.digest f.bytes) _ (
                  seq (On (holding f s before, arrived) item)
                    (call_quiet pair_here item false it.root
                      (commits it.target it.token (hd.digest f.bytes)) []
                      (disks_at item.stamp.length) (holding f s before, arrived) (done, [])
                      (subst Commits (sym here) ask-Commits))
                    (modify_lem _ (λ c p. p))))))))

  send_goes :
      Triple
        (On (disks_at 0) item)
        (send pair_here hd.digest 0 false)
        (λ _. On (holding f s before, arrived) item)
        Never
  unfolding send
  send_goes =
      gets_then (λ c. c.item)
        (λ it.
          weaken (λ c p. (ap fixed p.1 ∙ p.0.1, p.0))
            (known (λ (here : fixed it ≡ item).
              let size : it.stamp.length ≡ item.stamp.length =
                ap (λ (i : Item). i.stamp.length) here in
              seq (On (disks_at item.stamp.length) item)
                (loop_goes refuse elsewhere hs hd f item hd.fresh journal l n n' ns ns' names names'
                  uuid alike (initial-Owned hd n' ns' uuid names' item.stamp readable) refl s before
                  it.stamp.length 0 (source_is, target_is, same, refl) (omega arith) (omega arith))
                seal_goes)))

  file_goes :
      Triple
        (On (holding f s before, empty_disk l) item)
        (Copy.file pair_here hd.digest)
        (λ _. On (holding f s before, arrived) item)
        Never
  unfolding Copy.file as_ready
  file_goes = seq (On (holding f s before, empty_disk l) item) (modify_lem _ (λ c p. p)) (
      seq (On (holding f s before, empty_disk l) item)
        (keep_quiet refuse elsewhere hs hd (holding f s before, empty_disk l) item)
        (gets_then (λ c. c.item)
          (λ it.
            weaken (λ c p. (ap fixed p.1 ∙ p.0.1, p.0))
              (known (λ (here : fixed it ≡ item).
                call_then pair_here item _ false it.root
                  (prepares it.target it.token it.stamp it.expected) []
                  (holding f s before, empty_disk l) (disks_at 0) (ready 0 false, [])
                  (subst Prepares (sym here) ask-Prepares)
                  (pure_then {B = ℕ × Bool} (0, false) _
                    (passes _ _ (ground arith) (
                      seq (On (disks_at 0) item) (modify_lem _ (λ c p. p)) (
                        seq (On (disks_at 0) item)
                          (keep_quiet refuse elsewhere hs hd (disks_at 0) item) send_goes)))))))))

succeeded :
    {W : Type 0} (Q : Client W → Type 0) (r : Result ClientError (Unit {0}) × Client W)
    → Outcome (λ _. Q) Never r
    → (r.0 ≡ ok tt) × Q r.1
succeeded Q (ok tt, c) q = (refl, q)
succeeded Q (err e, c) q = absurd q

-- Where no call fails and nobody interferes, a copy of a regular file that still has its stamp, to a
-- path where nothing stands and nothing is staged, succeeds: it puts exactly the source's bytes in
-- place, with the source's mode and time, and leaves the source's disk as it was. The source may be
-- of any length. Both endpoints compute the same digest, the paths and the token are accepted, and the
-- destination's journal is at most 16384 bytes of JSON at every offset.
pub copy_arrives :
    (refuse : Fault → ClientError) (elsewhere : ClientError) (hs hd : Endpoint) (f : File)
    (c : Client (World × World)) (s : Option Stage) (before l : List Publication) (n n' : List ℕ)
    (ns ns' : List (List ℕ))
    → components (codes hs.path) ≡ ok (n ∷ ns)
    → components (codes hd.path) ≡ ok (n' ∷ ns')
    → hd.is_uuid hd.token ≡ true
    → hs.digest ≡ hd.digest
    → text_eq c.item.source (codes hs.path) ≡ true
    → (text_eq c.item.target (codes hd.path) && str_eq c.item.token hd.token) ≡ true
    → unchanged c.item.stamp f ≡ true
    → kind_eq c.item.stamp.kind file ≡ true
    → c.item.expected ≡ none
    → ((offset : ℕ)
        → offset ≤ c.item.stamp.length
        → is_readable hd.journal_size (record {
          owner = hd.owner;
          path = hd.path;
          source = c.item.stamp;
          expected = none;
          offset = offset;
          digest = none;
          committed = false;
        })
          ≡ true)
    → c.world ≡ (holding f s before, empty_disk l)
    → let r = Copy.file (pair refuse elsewhere hs hd) hd.digest c in
      (r.0 ≡ ok tt)
      × (r.1.world.1.published
          ≡ record {
            replaced = none;
            placed = record {
              bytes = f.bytes;
              meta = with_times c.item.stamp (with_mode c.item.stamp hd.fresh);
            };
          }
            ∷ l)
      × (r.1.world.0 ≡ holding f s before)
copy_arrives refuse elsewhere hs hd f c s before l n n' ns ns' names names' uuid alike source_is
      target_is same is_file fresh readable disks =
    let (finished, world) =
      succeeded
        (On
          (
            holding f s before,
            arrived refuse elsewhere hs hd f (fixed c.item) l n n' ns ns' names names' uuid alike s
                before source_is target_is same is_file fresh readable,
          )
          (fixed c.item))
        (Copy.file (pair refuse elsewhere hs hd) hd.digest c)
        ((file_goes refuse elsewhere hs hd f (fixed c.item) l n n' ns ns' names names' uuid alike s
            before source_is target_is same is_file fresh readable).run
          c (disks, refl)) in
    (
      finished,
      ap (λ (w : World × World). w.1.published) world.0,
      ap (λ (w : World × World). w.0) world.0,
    )
