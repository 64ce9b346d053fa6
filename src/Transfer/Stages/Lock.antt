-- ===== src/Transfer/Stages/Lock.antt =====
-- What `Endpoint::stage` of crates/transfer/src/journal.rs leaves behind on every schedule: the
-- directory is held, and the journal that it returns is the one on disk.
use mathlib.Core.Path.{subst}
use remote_codex.Base.{
  ◌≡◌, ◌∙◌, sym, refl, Bool, true, false, not, ◌&&◌, ℕ, Option, none, some, List, [], is_some,
  arith,
}
use remote_codex.Transfer.{transfer_io, transfer_busy, transfer_owner}
use remote_codex.Transfer.World.{
  File, Journal, Stage, Publication, ◌>>◌, pure, when, modify, tick, on_stage,
}
use remote_codex.Transfer.Stages.Rules.{
  View, Held, Overall, Implies, relax, attempt_tick, when_lem, parent_lem, when_false, when_true,
}
use remote_codex.Transfer.Stages.Holding.{
  held, held_tick, held_modify, held_pure, held-require, hold_fact, held_call, save_rule,
}
use remote_codex.Transfer.Triples.{
  Condition, Triple, bind, seq, pure_lem, throw_lem, gets_eq, conseq, modify_lem, give_lem,
  attempt_lem, Tried, require_lem, tick_lem,
}
use remote_codex.Transfer.Stages.{
  Endpoint, stage_name, save, create_stage, lock_stage, load_journal, read_whole, is_readable,
  stage, with_stage, require, give, call, make_stage, create_for, create_stage, choose_journal,
}

-- What is known of a journal that was loaded, and whether it is to be stored first.
abbrev Loaded : Option Journal → Option Journal → Journal × Bool → Type 0
Loaded stored initial (j, true) = (stored ≡ none) × (initial ≡ some j)
Loaded stored initial (j, false) = stored ≡ some j

stored_Loaded :
    (stored initial : Option Journal) (j : Journal) (missing : Bool)
    → (missing ≡ true → stored ≡ none)
    → stored ≡ some j
    → Loaded stored initial (j, missing && is_some initial)
stored_Loaded stored initial j false gone e = e
stored_Loaded stored initial j true gone e = absurd (contradiction (gone refl) e)
  where
    contradiction : stored ≡ none → stored ≡ some j → ⊥
    contradiction p q = cc

missing-none :
    (stored : Option Journal) (looked : Bool)
    → (looked && not (is_some stored)) ≡ true
    → stored ≡ none
missing-none stored looked e = ground arith

module _ {P : Condition} (stored : Option Journal) where
  open_state_lem :
      Triple P (do tick; give stored transfer_io) (λ j s l. P s l × (stored ≡ some j)) P
  open_state_lem = seq P tick_lem (give_lem stored transfer_io)

  choose_journal_lem :
      (missing : Bool) (initial opened : Option Journal)
      → (missing ≡ true → stored ≡ none)
      → Triple
          (Tried P (λ j s l. P s l × (stored ≡ some j)) opened)
          (choose_journal missing initial opened)
          (λ r s l. P s l × Loaded stored initial r)
          P
  unfolding choose_journal
  choose_journal_lem missing initial (some j) gone =
      pure_lem _ (λ s l p. (p.0, stored_Loaded stored initial j missing gone p.1))
  choose_journal_lem true (some j) none gone = pure_lem _ (λ s l p. (p, (gone refl, refl)))
  choose_journal_lem true none none gone = throw_lem _ (λ s l p. p)
  choose_journal_lem false initial none gone = throw_lem _ (λ s l p. p)

  read_whole_lem :
      (size : Journal → ℕ) (opened : Option Journal)
      → Triple
          (Tried P (λ j s l. P s l × (stored ≡ some j)) opened)
          (read_whole size opened)
          (λ _. Tried P (λ j s l. P s l × (stored ≡ some j)) opened)
          P
  unfolding read_whole
  read_whole_lem size none = pure_lem tt (λ s l p. p)
  read_whole_lem size (some j) =
      relax (λ s l p. p.0) (conseq (λ _ s l p. p.0) (require_lem (is_readable size j) transfer_io))

  load_journal_lem :
      (size : Journal → ℕ) (initial : Option Journal)
      → Triple P (load_journal size stored initial) (λ r s l. P s l × Loaded stored initial r) P
  unfolding load_journal
  load_journal_lem size initial =
      bind (λ _. P) attempt_tick
        (λ looked. bind _ (attempt_lem open_state_lem) (λ opened.
          seq _ (read_whole_lem size opened)
            (choose_journal_lem _ initial opened (missing-none stored (is_some looked)))))

module _ (I : View) where
  make_stage_lem :
      (found : Option Stage)
      → Triple (λ s l. Overall I s l × (found ≡ s)) (make_stage found) (λ _. Overall I) (Overall I)
  unfolding make_stage
  make_stage_lem (some x) = pure_lem false (λ s l p. p.0)
  make_stage_lem none =
      seq (Overall I)
        (modify_lem with_stage (λ w p. subst (λ o. Overall I o w.published) (sym p.1) p.0))
        (pure_lem true (λ s l p. p))

  create_for_lem :
      (initial : Option Journal)
      → Triple (Overall I) (create_for initial) (λ _. Overall I) (Overall I)
  unfolding create_for create_stage
  create_for_lem none = pure_lem false (λ s l p. p)
  create_for_lem (some j) = seq (Overall I) tick_lem (
      bind (λ found s l. Overall I s l × (found ≡ s)) (gets_eq _ (λ s. s) (λ w. refl))
        make_stage_lem)

  -- While locked, the journal on disk is the one of the directory that was opened.
  abbrev Locked : Stage → View
  Locked s c st l = I c st l × (s.state ≡ st)

  locked_start :
      (found : Option Stage) (x : Stage) (s : Option Stage) (l : List Publication)
      → (Overall I s l × (found ≡ s)) × (found ≡ some x)
      → Held (Locked x) s l
  locked_start found x s l ((p, e), q) =
      let same : some x ≡ s = sym q ∙ e in
      let inv : Overall I (some x) l = subst (λ o. Overall I o l) (sym same) p in
      subst (λ o. Held (Locked x) o l) same (inv, refl)

  lock_stage_lem : Triple (Overall I) lock_stage (λ s. Held (Locked s)) (Overall I)
  unfolding lock_stage
  lock_stage_lem = seq (Overall I) tick_lem (
      bind (λ found s l. Overall I s l × (found ≡ s)) (gets_eq _ (λ s. s) (λ w. refl))
        (λ found.
          bind (λ x. Held (Locked x))
            (conseq (locked_start found) (relax (λ s l p. p.0) (give_lem found _))) opened))
    where
      opened :
          (x : Stage)
          → Triple
              (Held (Locked x))
              (tick
                >> (modify (on_stage (λ s. record s { lock = true }))
                    >> (require (not x.busy) transfer_busy >> pure x)))
              (λ s. Held (Locked s))
              (Overall I)
      opened x =
          let weak : Implies (Locked x) I = λ c st l p. p.0 in
          seq (Held (Locked x)) (held_tick weak) (
            seq (Held (Locked x)) (held_modify (Locked x) (Locked x) _ (λ s l p. p)) (
              seq (Held (Locked x)) (held weak (conseq (λ _ s l p. p.0) (require_lem _ _)))
                (pure_lem x (λ s l p. p))))

  -- The handle that `stage` returns has the journal on disk.
  abbrev pub Opened : Journal → View
  Opened j c st l = I c st l × (st ≡ some j)

  module _ (h : Endpoint) (initial : Option Journal)
      (start : (j : Journal)
        → initial ≡ some j
        → (c : Option File) (l : List Publication) → I c none l
        → I (some (record { bytes = []; meta = h.fresh })) none l
          × I (some (record { bytes = []; meta = h.fresh })) (some j) l) where
    -- The journal is there, or is stored now.
    store_lem :
        (x : Stage) (j : Journal) (fresh_one : Bool) (owned : Bool)
        → Triple
            (Held (λ c st l. Locked x c st l × Loaded x.state initial (j, fresh_one)))
            (require owned transfer_owner
              >> (when fresh_one (
                    call (
                      on_stage
                        (λ s. record s { content = some (record { bytes = []; meta = h.fresh }) }))
                    >> (tick >> (save j >> tick)))
                  >> pure j))
            (λ j. Held (Opened j))
            (Overall I)
    store_lem x j false owned =
        let K : View = λ c st l. Locked x c st l × (x.state ≡ some j) in
        let weak : Implies K I = λ c st l p. p.0.0 in
        seq _ (held-require weak owned transfer_owner)
          (seq _ (when_false _) (held_pure _ Opened j (λ c st l p. (p.0.0.0, sym p.0.0.1 ∙ p.0.1))))
    store_lem x j true owned =
        let K : View = λ c st l. Locked x c st l × ((x.state ≡ none) × (initial ≡ some j)) in
        let weak : Implies K I = λ c st l p. p.0.0 in
        let empty : File = record { bytes = []; meta = h.fresh } in
        let Emptied : View = λ c st l. I c st l × I c (some j) l in
        let ready : Implies Emptied I = λ c st l p. p.0 in
        seq (Held K) (held weak (conseq (λ _ s l p. p.0) (require_lem owned transfer_owner))) (
          seq (Held (Opened j))
            (when_true (
              seq (Held Emptied) (held_call weak Emptied _ (λ s l p. emptied s.content s.state l p))
                (seq (Held Emptied) (held_tick ready) (
                  seq (Held (Opened j)) (save_rule ready stored j (λ c st l p. (p.1, refl)))
                    (held_tick stored)))))
            (held_pure (Opened j) Opened j (λ c st l p. p)))
      where
        stored : Implies (Opened j) I
        stored c st l p = p.0

        emptied :
            (c : Option File) (st : Option Journal) (l : List Publication)
            → Locked x c st l × ((x.state ≡ none) × (initial ≡ some j))
            → I (some (record { bytes = []; meta = h.fresh })) st l
              × I (some (record { bytes = []; meta = h.fresh })) (some j) l
        emptied c st l ((p, e), (gone, same)) =
            let at_none : st ≡ none = sym e ∙ gone in
            let (one, two) = start j same c l (subst (λ o. I c o l) at_none p) in
            (
              subst (λ o. I (some (record { bytes = []; meta = h.fresh })) o l) (sym at_none) one,
              two,
            )

    pub stage_rule : Triple (Overall I) (stage h initial) (λ j. Held (Opened j)) (Overall I)
    unfolding stage stage_name
    stage_rule = seq (Overall I) (parent_lem h) (
        seq (Overall I) (conseq (λ _ s l p. p.0) (require_lem _ _)) (
          bind (λ _. Overall I) (create_for_lem initial)
            (λ created. seq (Overall I) tick_lem (
              seq (Overall I) (when_lem created tick_lem) (
                bind (λ s. Held (Locked s)) lock_stage_lem
                  (λ s.
                    bind (λ r. Held (λ c st l. Locked s c st l × Loaded s.state initial r))
                      (conseq (λ r. hold_fact _ _)
                        (held (λ c st l p. p.0) (load_journal_lem s.state h.journal_size initial)))
                      (λ r. store_lem s r.0 r.1 _)))))))
