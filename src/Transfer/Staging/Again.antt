-- ===== src/Transfer/Staging/Again.antt =====
-- `commit` of crates/transfer/src/staging.rs for a file that was put in place before: the commit
-- was stopped after the rename, and is sent again.
use text.Mathlib.Text.{◌==◌ as str_eq}
use remote_codex.Base.{
  ◌≡◌, String, Bool, true, ◌&&◌, Option, some, List, ◌∷◌, ℕ, Result, ok, err, length, ◌==◌,
}
use remote_codex.Transfer.{Stamp, Reply, done, file, kind_eq, Fault, transfer_conflict}
use remote_codex.Transfer.Paths.{codes, components}
use remote_codex.Transfer.World.{
  File, regular, Journal, Stage, Publication, World, M, ◌>>=◌, ◌>>◌, pure, stamp,
}
use remote_codex.Transfer.Stages.{Endpoint, require, give, save}
use remote_codex.Transfer.Inspect.{source, hash_file, hash}
use remote_codex.Transfer.Staging.{digests_eq}
use remote_codex.Transfer.Staging.Complete.{quiet}

-- The answer for a file of this length and digest.
abbrev pub answer_for : (same_size same_digest : Bool) → Result Fault Reply
answer_for true true = ok done
answer_for _ _ = err transfer_conflict

module _ (h : Endpoint) (n : List ℕ) (ns : List (List ℕ)) (uuid : h.is_uuid h.token ≡ true)
    (names : components (codes h.path) ≡ ok (n ∷ ns)) (f : File) (l : List Publication) where
  abbrev here : Stage → World
  here s = quiet (some (regular f)) s l

  abbrev hash_rest : File → M String
  hash_rest g = hash_file h g >>= λ d. source h (stamp (regular f)) >> pure d

  module _ (j : Journal) (d : String) (known : j.digest ≡ some d) where
    abbrev digest_rest : String → M Journal
    digest_rest found =
        require (digests_eq (some found) j.digest) transfer_conflict
        >> (save (record j { committed = true }) >> pure (record j { committed = true }))

    abbrev stamp_rest : Option Stamp → M Journal
    stamp_rest found = give found transfer_conflict >>= λ s.
        (require (kind_eq s.kind file && s.length == j.source.length) transfer_conflict
          >> (hash h s >>= digest_rest))

    abbrev size_part : Bool → M Journal
    size_part fits = require fits transfer_conflict >> (hash h (stamp (regular f)) >>= digest_rest)
