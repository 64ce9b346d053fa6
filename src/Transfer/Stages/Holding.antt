-- ===== src/Transfer/Stages/Holding.antt =====
-- Rules for calls while an operation holds the lock of the staging directory
-- (crates/transfer/src/journal.rs), under every schedule.
use remote_codex.Base.{ℕ, take, ◌≡◌, ◌∙◌, sym, refl, Bool, true, Option, none, some, List}
use remote_codex.Transfer.{Fault, transfer_io}
use remote_codex.Transfer.World.{
  File, Journal, Stage, Publication, M, pure, modify, tick, on_stage, on_content, splice, write_all,
  content_of,
}
use remote_codex.Transfer.Triples.{
  Condition, Triple, bind, seq, pure_lem, gets_lem, gets_eq, conseq, modify_lem, give_lem,
  require_lem, tick_lem, call_lem, write_all_lem,
}
use remote_codex.Transfer.Stages.{save, open_content, content_gone, require, give, call}
use remote_codex.Transfer.Stages.Rules.{
  View, Held, Overall, Implies, Held-Overall, relax, attempt_tick,
}

on_stage_step :
    (K K' : View) (f : Stage → Stage)
    → ((s : Stage) (l : List Publication) → K s.content s.state l → K' (f s).content (f s).state l)
    → (o : Option Stage) (l : List Publication) → Held K o l
    → Held K' (elim o [ none ↦ none | some s ↦ some (f s) ]) l
on_stage_step K K' f step none l p = p
on_stage_step K K' f step (some s) l p = step s l p

module _ (K : View) where
  pub held_modify :
      {E : Condition} (K' : View) (f : Stage → Stage)
      → ((s : Stage) (l : List Publication)
          → K s.content s.state l
          → K' (f s).content (f s).state l)
      → Triple (Held K) (modify (on_stage f)) (λ _. Held K') E
  held_modify K' f step =
      modify_lem (on_stage f) (λ w p. on_stage_step K K' f step w.stage w.published p)

  -- A fact that holds whatever is on disk.
  pub hold_fact :
      (F : Type 0) (s : Option Stage) (l : List Publication)
      → Held K s l × F
      → Held (λ c st l. K c st l × F) s l
  hold_fact F none l p = p.0
  hold_fact F (some s) l p = p

  pub held_map :
      (K' : View)
      → Implies K K'
      → (s : Option Stage) (l : List Publication) → Held K s l
      → Held K' s l
  held_map K' h none l p = p
  held_map K' h (some s) l p = h s.content s.state l p

  pub held_pure :
      {A : Type 0} {E : Condition} (Q : A → View) (a : A)
      → Implies K (Q a)
      → Triple (Held K) (pure a) (λ a. Held (Q a)) E
  held_pure Q a h = pure_lem a (held_map (Q a) h)

on_content_step :
    (K K' : View) (g : File → File)
    → ((f : File) (st : Option Journal) (l : List Publication)
        → K (some f) st l
        → K' (some (g f)) st l)
    → ((st : Option Journal) (l : List Publication) → K none st l → K' none st l)
    → (c : Option File) (st : Option Journal) (l : List Publication) → K c st l
    → K' (elim c [ none ↦ none | some f ↦ some (g f) ]) st l
on_content_step K K' g there gone none st l p = gone st l p
on_content_step K K' g there gone (some f) st l p = there f st l p

staged : Option Stage → Option File
staged none = none
staged (some s) = s.content

content_of-staged : (o : Option Stage) → (elim o [ none ↦ none | some s ↦ s.content ]) ≡ staged o
unfolding staged
content_of-staged none = refl
content_of-staged (some s) = refl

content_fact :
    (K : View) (found : Option File) (f : File) (s : Option Stage) (l : List Publication)
    → (Held K s l × (found ≡ staged s)) × (found ≡ some f)
    → Held (λ c st l. K c st l × (c ≡ some f)) s l
unfolding staged
content_fact K found f none l p = p.0.0
content_fact K found f (some s) l ((p, e), q) = (p, sym e ∙ q)

-- A call while the directory is held.
module _ {K I : View} (weak : Implies K I) where
  pub held :
      {A : Type 0} {Q : A → Condition} {m : M A}
      → Triple (Held K) m Q (Held K)
      → Triple (Held K) m Q (Overall I)
  held t = relax (Held-Overall weak) t

  -- A test whose result is kept as a fact.
  pub held-require :
      (b : Bool) (e : Fault)
      → Triple (Held K) (require b e) (λ _. Held (λ c st l. K c st l × (b ≡ true))) (Overall I)
  held-require b e = held (conseq (λ _. hold_fact K _) (require_lem b e))

  pub held-give :
      {A : Type 0} (o : Option A) (e : Fault)
      → Triple (Held K) (give o e) (λ a. Held (λ c st l. K c st l × (o ≡ some a))) (Overall I)
  held-give o e = held (conseq (λ _. hold_fact K _) (give_lem o e))

  pub held_tick : Triple (Held K) tick (λ _. Held K) (Overall I)
  held_tick = held tick_lem

  pub held_call :
      (K' : View) (f : Stage → Stage)
      → ((s : Stage) (l : List Publication)
          → K s.content s.state l
          → K' (f s).content (f s).state l)
      → Triple (Held K) (call (on_stage f)) (λ _. Held K') (Overall I)
  held_call K' f step =
      held (call_lem (on_stage f) (λ w p. on_stage_step K K' f step w.stage w.published p))

module _ {K K' I : View} (before : Implies K I) (after : Implies K' I) where
  pub save_rule :
      (j : Journal)
      → ((c : Option File) (st : Option Journal) (l : List Publication)
          → K c st l
          → K' c (some j) l)
      → Triple (Held K) (save j) (λ _. Held K') (Overall I)
  unfolding save
  save_rule j step = seq (Held K) (held_tick before) (
      seq (Held K) (held_call before K _ (λ s l p. p)) (
        seq (Held K) (held_tick before) (
          seq (Held K') (held_call before K' _ (λ s l p. step s.content s.state l p))
            (held_tick after))))

module _ {K I : View} (weak : Implies K I) where
  pub held_content :
      Triple (Held K) open_content (λ f. Held (λ c st l. K c st l × (c ≡ some f))) (Overall I)
  unfolding open_content
  held_content = seq (Held K) (held_tick weak) (
      bind (λ found s l. Held K s l × (found ≡ staged s))
        (gets_eq content_of staged (λ w. content_of-staged w.stage))
        (λ found.
          conseq (content_fact K found)
            (relax (λ s l p. Held-Overall weak s l p.0) (give_lem found transfer_io))))

  pub held_content_gone : Triple (Held K) content_gone (λ _. Held K) (Overall I)
  unfolding content_gone
  held_content_gone = held weak (
      bind (λ _. Held K) attempt_tick
        (λ looked. bind (λ _. Held K) (gets_lem _) (λ found. pure_lem _ (λ s l p. p))))

  -- A call on the staged file.
  pub held_on_content :
      (K' : View) (g : File → File)
      → ((f : File) (st : Option Journal) (l : List Publication)
          → K (some f) st l
          → K' (some (g f)) st l)
      → ((st : Option Journal) (l : List Publication) → K none st l → K' none st l)
      → Triple (Held K) (call (on_content g)) (λ _. Held K') (Overall I)
  held_on_content K' g there gone =
      held_call weak K' _ (λ s l p. on_content_step K K' g there gone s.content s.state l p)

  pub held_write :
      (K' : View) (at : ℕ) (bytes : List ℕ)
      → ((f : File) (st : Option Journal) (l : List Publication) (n : ℕ)
          → K (some f) st l
          → K (some (record f { bytes = splice at (take n bytes) f.bytes })) st l)
      → ((f : File) (st : Option Journal) (l : List Publication)
          → K (some f) st l
          → K' (some (record f { bytes = splice at bytes f.bytes })) st l)
      → ((st : Option Journal) (l : List Publication) → K none st l → K' none st l)
      → Triple (Held K) (write_all at bytes) (λ _. Held K') (Overall I)
  held_write K' at bytes partial whole gone = held weak (
      write_all_lem at bytes
        (λ w n p.
          on_stage_step K K _
            (λ s l q.
              on_content_step K K _ (λ f st l r. partial f st l n r) (λ st l r. r) s.content s.state
                l q)
            w.stage w.published p)
        (λ w p.
          on_stage_step K K' _ (λ s l q. on_content_step K K' _ whole gone s.content s.state l q)
            w.stage w.published p))

  -- The same, where the value read is not looked at.
  pub held_check : (b : Bool) (e : Fault) → Triple (Held K) (require b e) (λ _. Held K) (Overall I)
  held_check b e = conseq (λ _. held_map _ K (λ c st l p. p.0)) (held-require weak b e)

  pub held_taken :
      {A : Type 0} (o : Option A) (e : Fault) → Triple (Held K) (give o e) (λ _. Held K) (Overall I)
  held_taken o e = conseq (λ _. held_map _ K (λ c st l p. p.0)) (held-give weak o e)

  pub held_open : Triple (Held K) open_content (λ _. Held K) (Overall I)
  held_open = conseq (λ _. held_map _ K (λ c st l p. p.0)) held_content
