-- ===== src/Client/Pair/Quiet.antt =====
-- What the ends of a transfer (crates/transfer/src) answer where no call fails and nobody
-- interferes.
use remote_codex.Base.{
  ℕ, ◌-◌, ◌≤◌, min, String, ◌≡◌, refl, ◌∙◌, true, false, not, Option, some, List, [], ◌∷◌, ok, ltb,
  take, drop, arith,
}
use remote_codex.Transfer.{Reply, block, hash, Stamp, chunk}
use remote_codex.Transfer.Paths.{codes, components}
use remote_codex.Transfer.World.{
  File, Stage, Publication, World, M, regular, ◌>>=◌, ◌>>◌, pure, gets, tick, next_event,
}
use remote_codex.Transfer.Stages.{Endpoint, check_cancelled, require, give, parent, open_parent}
use remote_codex.Transfer.Inspect.{unchanged, only_file, open_entry, source, hash_file, read}
use remote_codex.Transfer.Inspect
use remote_codex.Transfer.Staging
use remote_codex.Transfer.Staging.Complete.{ok_bind}
use remote_codex.Transfer.Endpoint.{reads, hashes, prepares, writes, commits, handle, dispatch}

-- A disk that holds a file, and on which nothing fails.
abbrev pub holding : File → Option Stage → List Publication → World
holding f s l = record {
  entry = some (regular f);
  stage = s;
  cancelled = false;
  events = [];
  published = l;
}

module _ (h : Endpoint) (n : List ℕ) (ns : List (List ℕ))
    (names : components (codes h.path) ≡ ok (n ∷ ns)) (f : File) (stamp : Stamp)
    (same : unchanged stamp f ≡ true) (s : Option Stage) (l : List Publication) where
  source_quiet : source h stamp (holding f s l) ≡ (ok f, holding f s l)
  unfolding source open_entry only_file parent open_parent require give tick next_event ◌>>=◌ ◌>>◌
      pure gets
  source_quiet = rw names (rw same refl)

  abbrev pub slice : ℕ → List ℕ
  slice offset = take (min chunk (stamp.length - offset)) (drop offset f.bytes)

  abbrev read_rest : ℕ → File → M (Reply × List ℕ)
  read_rest offset f =
      tick
      >> (tick
          >> (source h stamp
              >> pure (
                block (h.digest (take (min chunk (stamp.length - offset)) (drop offset f.bytes))),
                take (min chunk (stamp.length - offset)) (drop offset f.bytes),
              )))

  pub read_quiet :
      (offset : ℕ)
      → offset ≤ stamp.length
      → read h stamp offset (holding f s l)
        ≡ (ok (block (h.digest (slice offset)), slice offset), holding f s l)
  unfolding read tick next_event ◌>>◌ require pure
  read_quiet offset low =
      let inside : not (ltb stamp.length offset) ≡ true = ground arith in
      rw inside (
        ok_bind (source h stamp) (read_rest offset) source_quiet
        ∙ ok_bind (source h stamp) (λ _. pure (block (h.digest (slice offset)), slice offset))
            source_quiet)

  pub hash_quiet : Inspect.hash h stamp (holding f s l) ≡ (ok (h.digest f.bytes), holding f s l)
  unfolding Inspect.hash hash_file check_cancelled tick next_event ◌>>◌ pure
  hash_quiet =
      ok_bind (source h stamp) (λ f. hash_file h f >>= λ d. (source h stamp >> pure d)) source_quiet
      ∙ (ok_bind (hash_file h f) (λ d. source h stamp >> pure d) {w = holding f s l} refl
          ∙ ok_bind (source h stamp) (λ _. pure (h.digest f.bytes)) source_quiet)

  pub dispatch-reads :
      (offset : ℕ)
      → offset ≤ stamp.length
      → dispatch h (reads stamp offset) [] (holding f s l)
        ≡ (ok (block (h.digest (slice offset)), slice offset), holding f s l)
  unfolding dispatch handle check_cancelled require pure ◌>>◌ ◌>>=◌
  dispatch-reads offset low = read_quiet offset low

  pub dispatch-hashes :
      dispatch h (hashes stamp) [] (holding f s l)
      ≡ (ok (hash (h.digest f.bytes), []), holding f s l)
  unfolding dispatch handle check_cancelled require pure ◌>>◌ ◌>>=◌
  dispatch-hashes =
      ok_bind (Inspect.hash h stamp >>= λ d. pure (hash d)) (λ reply. pure (reply, []))
        (ok_bind (Inspect.hash h stamp) (λ d. pure (hash d)) hash_quiet)

-- A disk whose endpoint has not been stopped.
abbrev pub running : World → World
running w = record w { cancelled = false }

module _ (h : Endpoint) (w after : World) (reply : Reply) where
  pub dispatch-prepares :
      (from : Stamp) (expected : Option Stamp)
      → Staging.prepare h from expected (running w) ≡ (ok reply, after)
      → dispatch h (prepares from expected) [] (running w) ≡ (ok (reply, []), after)
  unfolding dispatch handle check_cancelled require pure ◌>>◌ ◌>>=◌
  dispatch-prepares from expected e =
      ok_bind (Staging.prepare h from expected) (λ reply. pure (reply, [])) e

  pub dispatch-writes :
      (offset : ℕ) (digest : String) (bytes : List ℕ)
      → Staging.write h offset digest bytes (running w) ≡ (ok reply, after)
      → dispatch h (writes offset digest) bytes (running w) ≡ (ok (reply, []), after)
  unfolding dispatch handle check_cancelled require pure ◌>>◌ ◌>>=◌
  dispatch-writes offset digest bytes e =
      ok_bind (Staging.write h offset digest bytes) (λ reply. pure (reply, [])) e

  pub dispatch-commits :
      (digest : String)
      → Staging.commit h digest (running w) ≡ (ok reply, after)
      → dispatch h (commits digest) [] (running w) ≡ (ok (reply, []), after)
  unfolding dispatch handle check_cancelled require pure ◌>>◌ ◌>>=◌
  dispatch-commits digest e = ok_bind (Staging.commit h digest) (λ reply. pure (reply, [])) e
