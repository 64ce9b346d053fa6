-- ===== src/Transfer/Stages/Rules.antt =====
-- Rules for the operations of Stages (crates/transfer/src/journal.rs), under every schedule. While
-- an operation holds the lock, the staging directory is there: its conditions speak of the staged
-- file, the journal on disk and the publications.
use remote_codex.Base.{
  ℕ, ◌∷◌, ◌≡◌, refl, Bool, true, false, Option, none, some, List, [], Result, ok, err,
  if◌then◌else◌,
}
use remote_codex.Transfer.{Fault, transfer_path, transfer_cancelled}
use remote_codex.Transfer.World.{File, Journal, Stage, Publication, World, M, when, tick, attempt}
use remote_codex.Transfer.Triples.{
  Condition, At, Outcome, Triple, seq, pure_lem, throw_lem, gets_lem, conseq, attempt_lem, Tried,
  require_lem, tick_lem,
}
use remote_codex.Transfer.Stages.{
  Endpoint, parent, stage_name, check_cancelled, stat_parent, find_stamp, open_parent,
}

abbrev pub View : Type 1
View = Option File → Option Journal → List Publication → Type 0

abbrev pub Held : View → Condition
Held K none l = ⊥
Held K (some s) l = K s.content s.state l

abbrev pub Overall : View → Condition
Overall K none l = K none none l
Overall K (some s) l = K s.content s.state l

abbrev pub Implies : View → View → Type 0
Implies K I = (c : Option File) (j : Option Journal) (l : List Publication) → K c j l → I c j l

pub Held-Overall :
    {K I : View}
    → Implies K I
    → (s : Option Stage) (l : List Publication) → Held K s l
    → Overall I s l
Held-Overall weak none l p = absurd p
Held-Overall weak (some s) l p = weak s.content s.state l p

module _ {ℓ} {A : Type ℓ} where
  relax_outcome :
      (Q : A → Condition) (E E' : Condition)
      → ((s : Option Stage) (l : List Publication) → E s l → E' s l)
      → (r : Result Fault A × World) → Outcome Q E r
      → Outcome Q E' r
  relax_outcome Q E E' weak (ok a, w) p = p
  relax_outcome Q E E' weak (err e, w) p = weak w.stage w.published p

  pub relax :
      {P : Condition} {Q : A → Condition} {E E' : Condition} {m : M A}
      → ((s : Option Stage) (l : List Publication) → E s l → E' s l)
      → Triple P m Q E
      → Triple P m Q E'
  relax {Q} {E} {E'} {m} weak t = record {
    run = λ w p. relax_outcome Q E E' weak (m w) (t.run w p);
  }

attempt_tick_outcome :
    (P : Condition)
    → (r : Result Fault (Option (Unit {0})) × World) → Outcome (Tried P (λ _. P)) P r
    → Outcome (λ _. P) P r
attempt_tick_outcome P (ok none, w) p = p
attempt_tick_outcome P (ok (some a), w) p = p
attempt_tick_outcome P (err e, w) p = p

module _ {P : Condition} where
  pub attempt_tick : Triple P (attempt tick) (λ _. P) P
  attempt_tick = record {
    run = λ w p. attempt_tick_outcome P (attempt tick w) ((attempt_lem tick_lem).run w p);
  }

  pub when_false : {E : Condition} (m : M (Unit {0})) → Triple P (when false m) (λ _. P) E
  unfolding when
  when_false m = pure_lem tt (λ s l p. p)

  pub when_true :
      {Q : Unit {0} → Condition} {E : Condition} {m : M (Unit {0})}
      → Triple P m Q E
      → Triple P (when true m) Q E
  unfolding when
  when_true t = t

  pub when_cases :
      {E : Condition} (Q : Condition) (b : Bool) {m : M (Unit {0})}
      → (b ≡ true → Triple P m (λ _. Q) E)
      → (b ≡ false → (s : Option Stage) (l : List Publication) → P s l → Q s l)
      → Triple P (when b m) (λ _. Q) E
  unfolding when
  when_cases Q true run skip = run refl
  when_cases Q false run skip = pure_lem tt (skip refl)

  pub when_lem :
      (b : Bool) {m : M (Unit {0})} → Triple P m (λ _. P) P → Triple P (when b m) (λ _. P) P
  unfolding when
  when_lem true t = t
  when_lem false t = pure_lem tt (λ s l p. p)

  open_parent_lem : (r : Result Fault (List (List ℕ))) → Triple P (open_parent r) (λ _. P) P
  unfolding open_parent
  open_parent_lem (err e) = throw_lem e (λ s l p. p)
  open_parent_lem (ok []) = throw_lem transfer_path (λ s l p. p)
  open_parent_lem (ok (_ ∷ _)) = tick_lem

  pub parent_lem : (h : Endpoint) → Triple P (parent h) (λ _. P) P
  unfolding parent
  parent_lem h = open_parent_lem _

  pub stage_name_lem : (h : Endpoint) → Triple P (stage_name h) (λ _. P) P
  unfolding stage_name
  stage_name_lem h = conseq (λ _ s l p. p.0) (require_lem _ _)

  stat_parent_lem : (h : Endpoint) (b : Bool) → Triple P (stat_parent h b) (λ _. P) P
  unfolding stat_parent
  stat_parent_lem h true = tick_lem
  stat_parent_lem h false = parent_lem h

  pub find_stamp_lem : (h : Endpoint) → Triple P (find_stamp h) (λ _. P) P
  unfolding find_stamp
  find_stamp_lem h = seq P (stat_parent_lem h _) (seq P tick_lem (gets_lem _))

  pub check_cancelled_lem : (h : Endpoint) → Triple P (check_cancelled h) (λ _. P) P
  unfolding check_cancelled
  check_cancelled_lem h = record { run = λ w p. go w.cancelled w p }
    where
      go :
          (b : Bool) (w : World)
          → At P w
          → Outcome {A = Unit {0}}
              (λ _. P)
              P
              (if b then (err transfer_cancelled, w) else (ok tt, w))
      go true w p = p
      go false w p = p
