-- ===== src/Transfer/Staging/Resume.antt =====
-- `prepare` of crates/transfer/src/staging.rs, on every schedule: where it answers with an offset,
-- exactly the bytes before that offset are staged.
use mathlib.Core.Path.{subst}
use remote_codex.Base.{
  ℕ, ◌≡◌, refl, sym, ap, ◌∙◌, Bool, true, false, not, Option, none, some, List, [], length, take,
  length-take, take_all, take-take, is_some, ltb, arith,
}
use remote_codex.Transfer.{Stamp, Reply, ready}
use remote_codex.Transfer.World.{File, Journal, Publication, pure, ◌>>◌, on_content}
use remote_codex.Transfer.Triples.{Condition, Triple, bind, seq, conseq, pure_lem, require_lem}
use remote_codex.Transfer.Stages.{Endpoint, open_content, call}
use remote_codex.Transfer.Stages.Rules.{
  View, Held, Overall, Implies, Held-Overall, when_cases, find_stamp_lem,
}
use remote_codex.Transfer.Stages.Holding.{
  held, held_tick, held-require, held_check, held_taken, held_open, held_map, held_content,
  held_content_gone, held_on_content, save_rule,
}
use remote_codex.Transfer.Stages.Lock.{Opened, stage_rule}
use remote_codex.Transfer.Inspect.Quiet.{hash_lem}
use remote_codex.Transfer.Staging.{reconcile, settle_gone, settle_digest, settle, cut_back, prepare}
use remote_codex.Transfer.Staging.Checkpoint.{Fits, start_Fits, on_disk, in_memory}

module _ (sent : List ℕ) where
  -- A committed journal says nothing of the staged file.
  pub committed_Fits :
      (c : Option File) (j : Journal) (l : List Publication)
      → j.committed ≡ true
      → Fits sent c (some j) l
  committed_Fits none j l e = tt
  committed_Fits (some f) j l e = λ open_journal. absurd (cc)

  abbrev opened_weak : (j : Journal) → Implies (Opened (Fits sent) j) (Fits sent)
  opened_weak j c st l p = p.0

  module _ (h : Endpoint) where
    pub reconcile_rule :
        (j : Journal)
        → Triple
            (Held (Opened (Fits sent) j))
            (reconcile h j)
            (λ r. Held (Opened (Fits sent) r))
            (Overall (Fits sent))
    unfolding reconcile
    reconcile_rule j =
        let weak = opened_weak j in
        bind (λ _. Held (Opened (Fits sent) j)) (held weak (find_stamp_lem h))
          (λ found.
            bind (λ _. Held (Opened (Fits sent) j)) (held_taken weak found _)
              (λ s. seq (Held (Opened (Fits sent) j)) (held_check weak _ _) (
                bind (λ _. Held (Opened (Fits sent) j)) (held weak (hash_lem h s))
                  (λ d. seq (Held (Opened (Fits sent) j)) (held_check weak _ _) (
                    seq (Held (Opened (Fits sent) (record j { committed = true })))
                      (save_rule weak (opened_weak (record j { committed = true })) _ (λ c st l p.
                        (committed_Fits c (record j { committed = true }) l refl, refl)))
                      (pure_lem _ (λ s l p. p)))))))

    settle_rule :
        (j : Journal)
        → Triple
            (Held (Opened (Fits sent) j))
            (settle h j)
            (λ r. Held (Opened (Fits sent) r))
            (Overall (Fits sent))
    unfolding settle
    settle_rule j = digest_rule (is_some j.digest)
      where
        gone_rule :
            (gone : Bool)
            → Triple
                (Held (Opened (Fits sent) j))
                (settle_gone h j gone)
                (λ r. Held (Opened (Fits sent) r))
                (Overall (Fits sent))
        gone_rule true = reconcile_rule j
        gone_rule false = pure_lem j (λ s l p. p)

        digest_rule :
            (published : Bool)
            → Triple
                (Held (Opened (Fits sent) j))
                (settle_digest h j published)
                (λ r. Held (Opened (Fits sent) r))
                (Overall (Fits sent))
        digest_rule false = pure_lem j (λ s l p. p)
        digest_rule true = bind _ (held_content_gone (opened_weak j)) gone_rule

    -- Exactly this many bytes are staged.
    abbrev pub Exactly : ℕ → Option File → Type 0
    Exactly n c = (f : File) × (c ≡ some f) × (f.bytes ≡ take n sent) × (length f.bytes ≡ n)

    Exactly-cut :
        (f : File) (j : Journal) (l : List Publication)
        → j.committed ≡ false
        → Fits sent (some f) (some j) l
        → Exactly j.offset (some (record f { bytes = take j.offset f.bytes }))
    Exactly-cut f j l open_journal fits =
        let (short, same, within) = fits open_journal in
        (
          record f { bytes = take j.offset f.bytes },
          refl,
          same,
          omega (arith, length-take j.offset f.bytes),
        )

    Fits_cut :
        (f : File) (j : Journal) (l : List Publication)
        → Fits sent (some f) (some j) l
        → Fits sent (some (record f { bytes = take j.offset f.bytes })) (some j) l
    Fits_cut f j l fits open_journal =
        let (short, same, within) = fits open_journal in
        (
          omega (arith, length-take j.offset f.bytes),
          take-take j.offset j.offset f.bytes (omega arith) ∙ same,
          within,
        )

    Exactly-whole :
        (f : File) (c : Option File) (j : Journal) (l : List Publication)
        → c ≡ some f
        → length f.bytes ≡ j.offset
        → j.committed ≡ false
        → Fits sent c (some j) l
        → Exactly j.offset c
    Exactly-whole f c j l here size open_journal fits =
        let (short, same, within) = subst (λ o. Fits sent o (some j) l) here fits open_journal in
        (f, here, sym (take_all j.offset f.bytes (omega arith)) ∙ same, size)

    abbrev Cut : Journal → View
    Cut j c st l = Opened (Fits sent) j c st l × (j.committed ≡ false → Exactly j.offset c)

    cut_back_rule :
        (j : Journal)
        → j.committed ≡ false
        → Triple
            (Held (Opened (Fits sent) j))
            (cut_back h j)
            (λ _. Held (Cut j))
            (Overall (Fits sent))
    unfolding cut_back
    cut_back_rule j open_journal =
        let weak = opened_weak j in
        bind _ (held_content weak) (λ f.
          let K : View = λ c st l. Opened (Fits sent) j c st l × (c ≡ some f) in
          let found : Implies K (Fits sent) = λ c st l p. p.0.0 in
          let Long : View = λ c st l. K c st l × (not (ltb (length f.bytes) j.offset) ≡ true) in
          seq (Held K) (held_tick found) (
            seq (Held Long) (held-require found _ _) (
              when_cases (Held (Cut j)) (ltb j.offset (length f.bytes))
                (λ longer. conseq (λ _ s l p. p) (cut_long j f))
                (λ fits. held_map Long (Cut j) (λ c st l p. (
                  p.0.0,
                  λ _.
                      Exactly-whole f c j l p.0.1 (exact f j p.1 fits) open_journal
                        (in_memory sent h c st j l p.0.0.1 p.0.0.0),
                ))))))
      where
        exact :
            (f : File) (j : Journal)
            → not (ltb (length f.bytes) j.offset) ≡ true
            → ltb j.offset (length f.bytes) ≡ false
            → length f.bytes ≡ j.offset
        exact f j a b = ground arith

        nothing_there : {f : File} → ◌≡◌ {A = Option File} none (some f) → ⊥
        nothing_there e = cc

        cut_long :
            (j : Journal) (f : File)
            → Triple
                (Held (λ c st l.
                  (Opened (Fits sent) j c st l × (c ≡ some f))
                  × (not (ltb (length f.bytes) j.offset) ≡ true)))
                (open_content
                  >> call (on_content (λ f. record f { bytes = take j.offset f.bytes })))
                (λ _. Held (Cut j))
                (Overall (Fits sent))
        cut_long j f =
            let weak : Implies
                (λ c st l.
                  (Opened (Fits sent) j c st l × (c ≡ some f))
                  × (not (ltb (length f.bytes) j.offset) ≡ true))
                (Fits sent) =
              λ c st l p. p.0.0.0 in
            seq _ (held_open weak) (
              held_on_content weak (Cut j) _
                (λ g st l p.
                  let fits = in_memory sent h (some g) st j l p.0.0.1 p.0.0.0 in
                  (
                    (
                      on_disk sent h (some (record g { bytes = take j.offset g.bytes })) st j l
                          p.0.0.1 (Fits_cut g j l fits),
                      p.0.0.1,
                    ),
                    λ open_journal. Exactly-cut g j l open_journal fits,
                  ))
                (λ st l p. absurd (nothing_there p.0.1)))

    -- What an answer to `prepare` promises.
    abbrev pub Resumes : Reply → Condition
    Resumes (ready n true) = Overall (Fits sent)
    Resumes (ready n false) = Held (λ c st l. Fits sent c st l × Exactly n c)
    Resumes _ = λ s l. ⊥

    answer :
        (j : Journal) (committed : Bool)
        → j.committed ≡ committed
        → Triple (Held (Cut j)) (pure (ready j.offset committed)) Resumes (Overall (Fits sent))
    answer j true e = pure_lem _ (Held-Overall (λ c st l p. p.0.0))
    answer j false e = pure_lem _ (held_map _ _ (λ c st l p. (p.0.0, p.1 e)))

    pub prepare_rule :
        (source : Stamp) (expected : Option Stamp)
        → Triple (Overall (Fits sent)) (prepare h source expected) Resumes (Overall (Fits sent))
    unfolding prepare
    prepare_rule source expected =
        seq (Overall (Fits sent)) (conseq (λ _ s l p. p.0) (require_lem _ _)) (
          bind _
            (stage_rule (Fits sent) h (some initial) (λ j e c l p. (
              tt,
              start_Fits sent (record { bytes = []; meta = h.fresh }) refl j (offset_of j e) l,
            )))
            (λ stored.
              seq (Held (Opened (Fits sent) stored)) (held_check (opened_weak stored) _ _) (
                bind _ (settle_rule stored) (λ j.
                  seq (Held (Cut j))
                    (when_cases (Held (Cut j)) (not j.committed)
                      (λ e.
                        bind (λ _. Held (Opened (Fits sent) j))
                          (held (opened_weak j) (find_stamp_lem h))
                          (λ found.
                            seq (Held (Opened (Fits sent) j)) (held_check (opened_weak j) _ _)
                              (cut_back_rule j (ground arith))))
                      (λ e. held_map _ _ (λ c st l p. (p, λ open_journal. absurd (ground arith)))))
                    (answer j j.committed refl)))))
      where
        initial : Journal
        initial = record {
          owner = h.owner;
          path = h.path;
          source = source;
          expected = expected;
          offset = 0;
          digest = none;
          committed = false;
        }

        offset_of : (j : Journal) → some initial ≡ some j → j.offset ≡ 0
        offset_of j e = ap (λ o. elim o [ none ↦ 0 | some x ↦ x.offset ]) (sym e)
