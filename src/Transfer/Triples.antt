-- ===== src/Transfer/Triples.antt =====
-- Pre- and postconditions for the endpoint's operations (crates/transfer/src), under every
-- schedule. A condition speaks of the staging directory and of the publications only: what others
-- put at the destination cannot change it.
use mathlib.Core.Path.{subst₂}
use remote_codex.Base.{
  ℕ, ◌≡◌, refl, sym, take, Bool, true, false, Option, none, some, List, Result, ok, err,
}
use remote_codex.Transfer.{Fault}
use remote_codex.Transfer.World.{
  Stage, Publication, World, M, ◌>>=◌, ◌>>◌, pure, throw, gets, modify, tick, attempt, next_event,
  write_all, overwrite, answered, written, next_event_quiet,
}
use remote_codex.Transfer.Stages.{require, give, call}

abbrev pub Condition : Type 1
Condition = Option Stage → List Publication → Type 0

abbrev pub At : Condition → World → Type 0
At P w = P w.stage w.published

-- The condition on a result, or the one on a failure.
abbrev pub Outcome {ℓ} :
    {A : Type ℓ} → (A → Condition) → Condition → Result Fault A × World → Type 0
Outcome Q E (ok a, w) = At (Q a) w
Outcome Q E (err e, w) = At E w

pub record Triple {ℓ} {A : Type ℓ} (P : Condition) (m : M A) (Q : A → Condition) (E : Condition)
    : Type 0 where
  pub run : (w : World) → At P w → Outcome Q E (m w)

module _ {ℓ κ} {A : Type ℓ} {B : Type κ} where
  Outcome-bind :
      (R : A → Condition) (Q : B → Condition) (E : Condition) (f : A → M B)
      → ((a : A) → Triple (R a) (f a) Q E)
      → (r : Result Fault A × World) → Outcome R E r
      → Outcome Q E (elim r.0 [ ok a ↦ f a r.1 | err e ↦ (err e, r.1) ])
  Outcome-bind R Q E f k (ok a, w) h = (k a).run w h
  Outcome-bind R Q E f k (err e, w) h = h

  pub bind :
      {P : Condition} {Q : B → Condition} {E : Condition} (R : A → Condition) {m : M A}
      {f : A → M B}
      → Triple P m R E
      → ((a : A) → Triple (R a) (f a) Q E)
      → Triple P (m >>= f) Q E
  unfolding ◌>>=◌
  bind {Q} {E} R {m} {f} first rest = record {
    run = λ w p. Outcome-bind R Q E f rest (m w) (first.run w p);
  }

  pub seq :
      {P : Condition} {Q : B → Condition} {E : Condition} (R : Condition) {m : M A} {k : M B}
      → Triple P m (λ _. R) E
      → Triple R k Q E
      → Triple P (m >> k) Q E
  unfolding ◌>>◌
  seq R first rest = bind (λ _. R) first (λ _. rest)

module _ {A : Type 0} where
  pub pure_lem :
      {P : Condition} {Q : A → Condition} {E : Condition} (a : A)
      → ((s : Option Stage) (l : List Publication) → P s l → Q a s l)
      → Triple P (pure a) Q E
  unfolding pure
  pure_lem a h = record { run = λ w p. h w.stage w.published p }

  pub throw_lem :
      {P : Condition} {Q : A → Condition} {E : Condition} (e : Fault)
      → ((s : Option Stage) (l : List Publication) → P s l → E s l)
      → Triple P (throw {A = A} e) Q E
  unfolding throw
  throw_lem e h = record { run = λ w p. h w.stage w.published p }

  -- The disk as it is, read without a call.
  pub gets_lem : {P : Condition} {E : Condition} (g : World → A) → Triple P (gets g) (λ _. P) E
  unfolding gets
  gets_lem g = record { run = λ w p. p }

  -- As above, with the value read.
  pub gets_eq :
      {P : Condition} {E : Condition} (g : World → A) (v : Option Stage → A)
      → ((w : World) → g w ≡ v w.stage)
      → Triple P (gets g) (λ a s l. P s l × (a ≡ v s)) E
  unfolding gets
  gets_eq g v same = record { run = λ w p. (p, same w) }

  conseq_outcome :
      (Q Q' : A → Condition) (E : Condition)
      → ((a : A) (s : Option Stage) (l : List Publication) → Q a s l → Q' a s l)
      → (r : Result Fault A × World) → Outcome Q E r
      → Outcome Q' E r
  conseq_outcome Q Q' E weak (ok a, w) p = weak a w.stage w.published p
  conseq_outcome Q Q' E weak (err e, w) p = p

  pub conseq :
      {P : Condition} {Q Q' : A → Condition} {E : Condition} {m : M A}
      → ((a : A) (s : Option Stage) (l : List Publication) → Q a s l → Q' a s l)
      → Triple P m Q E
      → Triple P m Q' E
  conseq {Q} {Q'} {E} {m} weak t = record {
    run = λ w p. conseq_outcome Q Q' E weak (m w) (t.run w p);
  }

  pub from :
      {P P' : Condition} {Q : A → Condition} {E : Condition} {m : M A}
      → ((s : Option Stage) (l : List Publication) → P s l → P' s l)
      → Triple P' m Q E
      → Triple P m Q E
  from strong t = record { run = λ w p. t.run w (strong w.stage w.published p) }

  give_outcome :
      (P E : Condition) (o : Option A) (e : Fault) (w : World)
      → (At P w → At E w)
      → At P w
      → Outcome (λ a s l. P s l × (o ≡ some a)) E (give o e w)
  unfolding give
  give_outcome P E none e w weak p = weak p
  give_outcome P E (some a) e w weak p = (p, refl)

  pub give_lem :
      {P : Condition} (o : Option A) (e : Fault)
      → Triple P (give o e) (λ a s l. P s l × (o ≡ some a)) P
  give_lem {P} o e = record { run = λ w p. give_outcome P P o e w (λ x. x) p }

  -- What is known of an attempt: its condition, or that nothing changed.
  abbrev pub Tried : Condition → (A → Condition) → Option A → Condition
  Tried P Q none = P
  Tried P Q (some a) = Q a

  attempt_outcome :
      (P : Condition) (Q : A → Condition) (r : Result Fault A × World)
      → Outcome Q P r
      → Outcome (Tried P Q) P (elim r.0 [ ok a ↦ (ok (some a), r.1) | err e ↦ (ok none, r.1) ])
  attempt_outcome P Q (ok a, w) p = p
  attempt_outcome P Q (err e, w) p = p

  pub attempt_lem :
      {P : Condition} {Q : A → Condition} {m : M A}
      → Triple P m Q P
      → Triple P (attempt m) (Tried P Q) P
  unfolding attempt
  attempt_lem {P} {Q} {m} h = record { run = λ w p. attempt_outcome P Q (m w) (h.run w p) }

require_outcome :
    (P : Condition) (b : Bool) (e : Fault) (w : World)
    → At P w
    → Outcome (λ _ s l. P s l × (b ≡ true)) P (require b e w)
unfolding require
require_outcome P true e w p = (p, refl)
require_outcome P false e w p = p

pub require_lem :
    {P : Condition} (b : Bool) (e : Fault) → Triple P (require b e) (λ _ s l. P s l × (b ≡ true)) P
require_lem {P} b e = record { run = λ w p. require_outcome P b e w p }

answered_outcome :
    (P : Condition) (r : Result ℕ (Unit {0}) × World) → At P r.1 → Outcome (λ _. P) P (answered r)
answered_outcome P (ok _, w) p = p
answered_outcome P (err n, w) p = p

tick_outcome : (P : Condition) (w : World) → At P w → Outcome (λ _. P) P (tick w)
unfolding tick
tick_outcome P w p =
    let (same_stage, same_log) = next_event_quiet w in
    answered_outcome P (next_event w) (subst₂ P (sym same_stage) (sym same_log) p)

pub tick_lem : {P : Condition} → Triple P tick (λ _. P) P
tick_lem {P} = record { run = tick_outcome P }

pub modify_lem :
    {P : Condition} {Q : Condition} {E : Condition} (f : World → World)
    → ((w : World) → At P w → At Q (f w))
    → Triple P (modify f) (λ _. Q) E
unfolding modify
modify_lem f h = record { run = h }

pub call_lem :
    {P : Condition} {Q : Condition} (f : World → World)
    → ((w : World) → At P w → At Q (f w))
    → Triple P (call f) (λ _. Q) P
unfolding call
call_lem {P} f h = seq P tick_lem (modify_lem f h)

written_outcome :
    (P Q : Condition) (at : ℕ) (bytes : List ℕ) (r : Result ℕ (Unit {0}) × World)
    → ((w : World) (n : ℕ) → At P w → At P (overwrite at (take n bytes) w))
    → ((w : World) → At P w → At Q (overwrite at bytes w))
    → At P r.1
    → Outcome (λ _. Q) P (written at bytes r)
written_outcome P Q at bytes (ok _, w) partial whole p = whole w p
written_outcome P Q at bytes (err n, w) partial whole p = partial w n p

write_all_outcome :
    (P Q : Condition) (at : ℕ) (bytes : List ℕ)
    → ((w : World) (n : ℕ) → At P w → At P (overwrite at (take n bytes) w))
    → ((w : World) → At P w → At Q (overwrite at bytes w))
    → (w : World) → At P w
    → Outcome (λ _. Q) P (write_all at bytes w)
unfolding write_all
write_all_outcome P Q at bytes partial whole w p =
    let (same_stage, same_log) = next_event_quiet w in
    written_outcome P Q at bytes (next_event w) partial whole
      (subst₂ P (sym same_stage) (sym same_log) p)

pub write_all_lem :
    {P : Condition} {Q : Condition} (at : ℕ) (bytes : List ℕ)
    → ((w : World) (n : ℕ) → At P w → At P (overwrite at (take n bytes) w))
    → ((w : World) → At P w → At Q (overwrite at bytes w))
    → Triple P (write_all at bytes) (λ _. Q) P
write_all_lem {P} {Q} at bytes partial whole = record {
  run = write_all_outcome P Q at bytes partial whole;
}
