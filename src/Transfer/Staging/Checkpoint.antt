-- ===== src/Transfer/Staging/Checkpoint.antt =====
-- The durable checkpoint of a staged file (crates/transfer/src/staging.rs): on every schedule of
-- failures, of changes by others and of a stop, the staged file holds what its journal says.
use mathlib.Core.Path.{subst}
use remote_codex.Base.{
  ℕ, ◌+◌, ◌≤◌, ◌≡◌, sym, ap, ◌∙◌, String, true, false, Option, none, some, List, [], ◌++◌, length,
  take, drop, take-append-slice, arith,
}
use remote_codex.Transfer.World.{File, Journal, Publication, splice}
use remote_codex.Transfer.World.Splice.{take-splice_before, length-splice_ge, take-splice_after}
use remote_codex.Transfer.Triples.{Triple, bind, seq, conseq, pure_lem}
use remote_codex.Transfer.Stages.{Endpoint}
use remote_codex.Transfer.Stages.Rules.{View, Held, Overall, Implies, Held-Overall}
use remote_codex.Transfer.Stages.Holding.{
  held_tick, held-require, held_open, held_map, save_rule, held_write,
}
use remote_codex.Transfer.Stages.Lock.{Opened, stage_rule}
use remote_codex.Transfer.Staging.{accepts_block, write}

-- The staged bytes up to the checkpoint are a prefix of the file that is sent.
abbrev pub Fits : List ℕ → View
Fits sent none j l = Unit
Fits sent (some f) none l = Unit
Fits sent (some f) (some j) l =
    j.committed ≡ false
    → (j.offset ≤ length f.bytes)
      × (take j.offset f.bytes ≡ take j.offset sent)
      × (j.offset ≤ j.source.length)

accepts_block_facts :
    (digest : List ℕ → String) (j : Journal) (offset : ℕ) (named : String) (bytes : List ℕ)
    → accepts_block digest j offset named bytes ≡ true
    → (j.committed ≡ false) × (offset ≡ j.offset) × (offset + length bytes ≤ j.source.length)
unfolding accepts_block
accepts_block_facts digest j offset named bytes e = ground arith

module _ (sent : List ℕ) where
  pub start_Fits :
      (f : File)
      → f.bytes ≡ []
      → (j : Journal) → j.offset ≡ 0
      → (l : List Publication) → Fits sent (some f) (some j) l
  start_Fits f empty j zero_offset l open_journal = (
    omega arith,
    ap (λ n. take n f.bytes) zero_offset ∙ sym (ap (λ n. take n sent) zero_offset),
    omega arith,
  )

  Fits-splice_partial :
      (f : File) (j : Journal) (l : List Publication) (block : List ℕ)
      → Fits sent (some f) (some j) l
      → Fits sent (some (record f { bytes = splice j.offset block f.bytes })) (some j) l
  Fits-splice_partial f j l block fits open_journal =
      let (short, same, within) = fits open_journal in
      (
        omega (arith, length-splice_ge j.offset block f.bytes short),
        take-splice_before j.offset j.offset block f.bytes (omega arith) short ∙ same,
        within,
      )

  Fits-splice :
      (f : File) (j : Journal) (l : List Publication) (block : List ℕ)
      → block ≡ take (length block) (drop j.offset sent)
      → j.offset + length block ≤ j.source.length
      → Fits sent (some f) (some j) l
      → Fits sent
          (some (record f { bytes = splice j.offset block f.bytes }))
          (some (record j { offset = j.offset + length block }))
          l
  Fits-splice f j l block slice room fits open_journal =
      let (short, same, within) = fits open_journal in
      (
        length-splice_ge j.offset block f.bytes short,
        take-splice_after j.offset block f.bytes short
            ∙ ap (λ p. p ++ block) same
            ∙ ap (◌++◌ (take j.offset sent)) slice
            ∙ take-append-slice j.offset (length block) sent,
        room,
      )

  module _ (h : Endpoint) where
    -- What the checks of `write` have shown.
    abbrev Accepted : Journal → ℕ → List ℕ → View
    Accepted j offset bytes c st l =
        Opened (Fits sent) j c st l
        × (offset ≡ j.offset)
        × (offset + length bytes ≤ j.source.length)

    -- Rewriting a fact about the journal in memory into one about the journal on disk.
    pub on_disk :
        (c : Option File) (st : Option Journal) (j : Journal) (l : List Publication)
        → st ≡ some j
        → Fits sent c (some j) l
        → Fits sent c st l
    on_disk c st j l disk = subst (λ o. Fits sent c o l) (sym disk)

    pub in_memory :
        (c : Option File) (st : Option Journal) (j : Journal) (l : List Publication)
        → st ≡ some j
        → Fits sent c st l
        → Fits sent c (some j) l
    in_memory c st j l disk = subst (λ o. Fits sent c o l) disk

    Accepted-splice :
        (j : Journal) (offset : ℕ) (bytes block : List ℕ) (f : File) (st : Option Journal)
        (l : List Publication)
        → Accepted j offset bytes (some f) st l
        → Accepted j offset bytes (some (record f { bytes = splice offset block f.bytes })) st l
    Accepted-splice j offset bytes block f st l ((fits, disk), at, room) = ((kept, disk), at, room)
      where
        kept : Fits sent (some (record f { bytes = splice offset block f.bytes })) st l
        kept =
            on_disk (some (record f { bytes = splice offset block f.bytes })) st j l disk
              (rw at (Fits-splice_partial f j l block (in_memory (some f) st j l disk fits)))

    -- The block is written, and the journal may be moved past it.
    abbrev Moved : Journal → ℕ → View
    Moved j size c st l =
        Fits sent c st l × Fits sent c (some (record j { offset = j.offset + size })) l

    Accepted-Moved :
        (j : Journal) (offset : ℕ) (bytes : List ℕ) (f : File) (st : Option Journal)
        (l : List Publication)
        → bytes ≡ take (length bytes) (drop offset sent)
        → Accepted j offset bytes (some f) st l
        → Moved j (length bytes) (some (record f { bytes = splice offset bytes f.bytes })) st l
    Accepted-Moved j offset bytes f st l slice ((fits, disk), at, room) = (
      (Accepted-splice j offset bytes bytes f st l ((fits, disk), at, room)).0.0,
      rw at (
          Fits-splice f j l bytes (slice ∙ ap (λ n. take (length bytes) (drop n sent)) at)
            (omega arith) (in_memory (some f) st j l disk fits)),
    )

    pub write_rule :
        (offset : ℕ) (named : String) (bytes : List ℕ)
        → bytes ≡ take (length bytes) (drop offset sent)
        → Triple
            (Overall (Fits sent))
            (write h offset named bytes)
            (λ _. Overall (Fits sent))
            (Overall (Fits sent))
    unfolding write
    write_rule offset named bytes slice =
        bind _ (stage_rule (Fits sent) h none (λ j e. absurd (cc))) (λ j.
          let opened : Implies (Opened (Fits sent) j) (Fits sent) = λ c st l p. p.0 in
          let accepted : Implies (Accepted j offset bytes) (Fits sent) = λ c st l p. p.0.0 in
          let moved : Implies (Moved j (length bytes)) (Fits sent) = λ c st l p. p.0 in
          seq (Held (Accepted j offset bytes))
            (conseq
              (λ _. held_map _ _ (λ c st l p. (
                p.0,
                (accepts_block_facts h.digest j offset named bytes p.1).1,
                (accepts_block_facts h.digest j offset named bytes p.1).2,
              )))
              (held-require opened _ _))
            (seq (Held (Accepted j offset bytes)) (held_open accepted) (
              seq (Held (Moved j (length bytes)))
                (held_write accepted _ offset bytes
                  (λ f st l n. Accepted-splice j offset bytes (take n bytes) f st l)
                  (λ f st l. Accepted-Moved j offset bytes f st l slice) (λ st l p. (tt, tt)))
                (seq (Held (Moved j (length bytes))) (held_tick moved) (
                  seq (Held (Fits sent)) (save_rule moved (λ c st l p. p) _ (λ c st l p. p.1))
                    (pure_lem _ (Held-Overall (λ c st l p. p))))))))
