-- ===== src/Transfer/Inspect/Quiet.antt =====
-- Reading changes nothing in the staging directory (crates/transfer/src/inspect.rs), on every
-- schedule.
use remote_codex.Base.{ℕ, ◌≡◌, refl, String, true}
use remote_codex.Transfer.{Stamp, transfer_type, transfer_io}
use remote_codex.Transfer.World.{File, Node, regular, folder, special}
use remote_codex.Transfer.Triples.{
  Condition, Triple, bind, seq, conseq, pure_lem, throw_lem, gets_lem, give_lem, require_lem,
  tick_lem, call_lem,
}
use remote_codex.Transfer.Stages.{Endpoint}
use remote_codex.Transfer.Stages.Rules.{relax, when_lem, parent_lem, check_cancelled_lem}
use remote_codex.Transfer.Inspect.{
  unchanged, only_file, only_folder, open_entry, open_folder, source, hash_file, hash, read,
  metadata,
}

module _ {P : Condition} where
  only_file_lem : (n : Node) → Triple P (only_file n) (λ _. P) P
  unfolding only_file
  only_file_lem (regular f) = pure_lem f (λ s l p. p)
  only_file_lem (folder size m) = throw_lem transfer_type (λ s l p. p)
  only_file_lem (special size m) = throw_lem transfer_type (λ s l p. p)

  only_folder_lem : (n : Node) → Triple P (only_folder n) (λ _. P) P
  unfolding only_folder
  only_folder_lem (folder size m) = pure_lem tt (λ s l p. p)
  only_folder_lem (regular f) = throw_lem transfer_io (λ s l p. p)
  only_folder_lem (special size m) = throw_lem transfer_io (λ s l p. p)

  module _ (h : Endpoint) where
    open_entry_lem : Triple P (open_entry h) (λ _. P) P
    unfolding open_entry
    open_entry_lem = seq P (parent_lem h) (
        seq P tick_lem (
          bind (λ _. P) (gets_lem _)
            (λ found. bind (λ _. P) (conseq (λ _ s l p. p.0) (give_lem found _)) only_file_lem)))

    pub source_lem : (s : Stamp) → Triple P (source h s) (λ _. P) P
    unfolding source
    source_lem s =
        bind (λ _. P) open_entry_lem
          (λ f.
            seq P tick_lem
              (seq P (conseq (λ _ s l p. p.0) (require_lem _ _)) (pure_lem f (λ s l p. p))))

    -- The digest is that of the file's bytes.
    pub hash_file_lem :
        (f : File) → Triple P (hash_file h f) (λ d s l. P s l × (d ≡ h.digest f.bytes)) P
    unfolding hash_file
    hash_file_lem f =
        seq P (check_cancelled_lem h) (seq P tick_lem (pure_lem _ (λ s l p. (p, refl))))

    pub hash_lem : (s : Stamp) → Triple P (hash h s) (λ _. P) P
    unfolding hash
    hash_lem s =
        bind (λ _. P) (source_lem s)
          (λ f.
            bind (λ _. P) (conseq (λ _ s l p. p.0) (hash_file_lem f))
              (λ d. seq P (source_lem s) (pure_lem d (λ s l p. p))))

    pub read_lem : (s : Stamp) (offset : ℕ) → Triple P (read h s offset) (λ _. P) P
    unfolding read
    read_lem s offset = seq P (conseq (λ _ s l p. p.0) (require_lem _ _)) (
        bind (λ _. P) (source_lem s)
          (λ f. seq P tick_lem (seq P tick_lem (seq P (source_lem s) (pure_lem _ (λ s l p. p))))))

    open_folder_lem : Triple P (open_folder h) (λ _. P) P
    unfolding open_folder
    open_folder_lem = seq P (parent_lem h) (
        seq P tick_lem (
          bind (λ _. P) (gets_lem _)
            (λ found. bind (λ _. P) (conseq (λ _ s l p. p.0) (give_lem found _)) only_folder_lem)))

    pub metadata_lem : (s : Stamp) → Triple P (metadata h s) (λ _. P) P
    unfolding metadata
    metadata_lem s = seq P (when_lem _ open_folder_lem) (
        seq P (when_lem _ (seq P open_entry_lem (pure_lem tt (λ s l p. p))))
          (seq P (call_lem _ (λ w p. p)) (seq P (call_lem _ (λ w p. p)) tick_lem)))

-- The digest of a regular file with this stamp.
abbrev pub Hashed : Endpoint → Stamp → String → Type 0
Hashed h s d = (f : File) × (unchanged s f ≡ true) × (d ≡ h.digest f.bytes)

module _ {P : Condition} (h : Endpoint) where
  source_checked : (s : Stamp) → Triple P (source h s) (λ f st l. P st l × (unchanged s f ≡ true)) P
  unfolding source
  source_checked s =
      bind (λ _. P) (open_entry_lem h)
        (λ f. seq P tick_lem (
          seq (λ st l. P st l × (unchanged s f ≡ true)) (require_lem _ _)
            (pure_lem f (λ s l p. p))))

  -- What was hashed is a regular file that still had its stamp.
  pub hash_checked : (s : Stamp) → Triple P (hash h s) (λ d st l. P st l × Hashed h s d) P
  unfolding hash
  hash_checked s =
      bind (λ f st l. P st l × (unchanged s f ≡ true)) (source_checked s)
        (λ f.
          let Same : Condition = λ st l. P st l × (unchanged s f ≡ true) in
          bind (λ d st l. Same st l × (d ≡ h.digest f.bytes))
            (relax (λ st l p. p.0) (hash_file_lem h f))
            (λ d.
              seq (λ st l. Same st l × (d ≡ h.digest f.bytes))
                (relax (λ st l p. p.0.0) (source_lem h s))
                (pure_lem d (λ st l p. (p.0.0, (f, p.0.1, p.1))))))
