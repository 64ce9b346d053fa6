-- ===== src/Exec/Triples.antt =====
-- Conditions before and after an action, on success and on failure.
use remote_codex.Base.{
  ◌≡◌, refl, Bool, true, false, Option, none, some, Result, ok, err, if◌then◌else◌,
}
use remote_codex.Exec.{Exec, continue, ◌>>=◌, ◌>>◌, pure, throw, gets, give, modify, require, when}

-- The condition on a result, or the one on a failure.
abbrev pub Outcome {ℓ} :
    {E S : Type 0} {A : Type ℓ} → (A → S → Type 0) → (S → Type 0) → Result E A × S → Type 0
Outcome Q F (ok a, s) = Q a s
Outcome Q F (err e, s) = F s

pub record Triple {ℓ} {E S : Type 0} {A : Type ℓ} (P : S → Type 0) (m : Exec E S A)
    (Q : A → S → Type 0) (F : S → Type 0) : Type 0 where
  pub run : (s : S) → P s → Outcome Q F (m s)

module _ {ℓ κ} {E S : Type 0} {A : Type ℓ} {B : Type κ} {F : S → Type 0} where
  Outcome-continue :
      (R : A → S → Type 0) (Q : B → S → Type 0) (f : A → Exec E S B)
      → ((a : A) → Triple (R a) (f a) Q F)
      → (r : Result E A × S) → Outcome R F r
      → Outcome Q F (continue f r)
  Outcome-continue R Q f k (ok a, s) h = (k a).run s h
  Outcome-continue R Q f k (err e, s) h = h

  pub bind :
      {P : S → Type 0} {Q : B → S → Type 0} (R : A → S → Type 0) {m : Exec E S A}
      {f : A → Exec E S B}
      → Triple P m R F
      → ((a : A) → Triple (R a) (f a) Q F)
      → Triple P (m >>= f) Q F
  unfolding ◌>>=◌
  bind {Q} R {m} {f} first rest = record {
    run = λ s p. Outcome-continue R Q f rest (m s) (first.run s p);
  }

  -- A result that is dropped is still known.
  pub seq_value :
      {P : S → Type 0} {Q : B → S → Type 0} (R : A → S → Type 0) {m : Exec E S A} {k : Exec E S B}
      → Triple P m R F
      → ((a : A) → Triple (R a) k Q F)
      → Triple P (m >> k) Q F
  unfolding ◌>>◌
  seq_value {Q} R {m} {k} first rest = record {
    run = λ s p. Outcome-continue R Q (λ _. k) rest (m s) (first.run s p);
  }

  pub seq :
      {P : S → Type 0} {Q : B → S → Type 0} (R : S → Type 0) {m : Exec E S A} {k : Exec E S B}
      → Triple P m (λ _. R) F
      → Triple R k Q F
      → Triple P (m >> k) Q F
  unfolding ◌>>◌
  seq {Q} R {m} {k} first rest = record {
    run = λ s p. Outcome-continue (λ _. R) Q (λ _. k) (λ _. rest) (m s) (first.run s p);
  }

module _ {ℓ} {E S : Type 0} {A : Type ℓ} where
  Outcome-conseq :
      (Q R : A → S → Type 0) (F : S → Type 0) (r : Result E A × S)
      → ((a : A) (s : S) → R a s → Q a s)
      → Outcome R F r
      → Outcome Q F r
  Outcome-conseq Q R F (ok a, s) k h = k a s h
  Outcome-conseq Q R F (err e, s) k h = h

module _ {ℓ} {E S : Type 0} {A : Type ℓ} {P F : S → Type 0} {Q : A → S → Type 0} where
  pub pure_lem : (a : A) → ((s : S) → P s → Q a s) → Triple P (pure {E = E} a) Q F
  unfolding pure
  pure_lem a k = record { run = k }

  pub throw_lem : (e : E) → ((s : S) → P s → F s) → Triple P (throw {A = A} e) Q F
  unfolding throw
  throw_lem e k = record { run = k }

  pub give_lem :
      (o : Option A) (e : E)
      → ((s : S) → P s → F s)
      → ((a : A) → o ≡ some a → (s : S) → P s → Q a s)
      → Triple P (give o e) Q F
  unfolding give
  give_lem none e f k = throw_lem e f
  give_lem (some a) e f k = pure_lem a (k a refl)

  pub if_lem :
      (b : Bool) (m n : Exec E S A)
      → (b ≡ true → Triple P m Q F)
      → (b ≡ false → Triple P n Q F)
      → Triple P (elim b [ true ↦ m | false ↦ n ]) Q F
  if_lem true m n f k = f refl
  if_lem false m n f k = k refl

  pub ite_lem :
      (b : Bool) (m n : Exec E S A)
      → (b ≡ true → Triple P m Q F)
      → (b ≡ false → Triple P n Q F)
      → Triple P (if b then m else n) Q F
  ite_lem true m n f k = f refl
  ite_lem false m n f k = k refl

  pub conseq :
      {R : A → S → Type 0} {m : Exec E S A}
      → ((a : A) (s : S) → R a s → Q a s)
      → Triple P m R F
      → Triple P m Q F
  conseq {R} {m} k t = record { run = λ s p. Outcome-conseq Q R F (m s) k (t.run s p) }

  pub weaken :
      {R : S → Type 0} {m : Exec E S A} → ((s : S) → P s → R s) → Triple R m Q F → Triple P m Q F
  weaken k t = record { run = λ s p. t.run s (k s p) }

  -- A condition that does not speak of the state is known before the action.
  pub known : {G : Type 0} {m : Exec E S A} → (G → Triple P m Q F) → Triple (λ s. G × P s) m Q F
  known k = record { run = λ s p. (k p.0).run s p.1 }

module _ {E S : Type 0} {P F : S → Type 0} {Q : S → Type 0} where
  pub modify_lem : (f : S → S) → ((s : S) → P s → Q (f s)) → Triple P (modify {E = E} f) (λ _. Q) F
  unfolding modify
  modify_lem f k = record { run = k }

  pub require_lem :
      (b : Bool) (e : E)
      → ((s : S) → P s → F s)
      → (b ≡ true → (s : S) → P s → Q s)
      → Triple P (require b e) (λ _. Q) F
  unfolding require
  require_lem true e f k = pure_lem tt (k refl)
  require_lem false e f k = throw_lem e f

  pub when_lem :
      (b : Bool) (m : Exec E S (Unit {0}))
      → (b ≡ true → Triple P m (λ _. Q) F)
      → (b ≡ false → (s : S) → P s → Q s)
      → Triple P (when b m) (λ _. Q) F
  unfolding when
  when_lem true m f k = f refl
  when_lem false m f k = pure_lem tt (k refl)

module _ {E S : Type 0} {A : Type 0} {P F : S → Type 0} where
  pub gets_lem : (f : S → A) → Triple P (gets {E = E} f) (λ a s. P s × (a ≡ f s)) F
  unfolding gets
  gets_lem f = record { run = λ s p. (p, refl) }

-- What a test that is passed, or a field that is read, says of the rest.
module _ {ℓ} {E S : Type 0} {A : Type ℓ} {P F : S → Type 0} {Q : A → S → Type 0} where
  pub require_then :
      (b : Bool) (e : E) {k : Exec E S A}
      → ((s : S) → P s → F s)
      → (b ≡ true → Triple P k Q F)
      → Triple P (require b e >> k) Q F
  unfolding require ◌>>◌ pure throw
  require_then true e f k = record { run = λ s p. (k refl).run s p }
  require_then false e f k = record { run = λ s p. f s p }

  pub gets_then :
      {B : Type 0} (f : S → B) {k : B → Exec E S A}
      → ((b : B) → Triple (λ s. P s × (b ≡ f s)) (k b) Q F)
      → Triple P (gets f >>= k) Q F
  unfolding gets ◌>>=◌
  gets_then f k = record { run = λ s p. (k (f s)).run s (p, refl) }

module _ {ℓ} {E S A : Type 0} {B : Type ℓ} {P R F : S → Type 0} {Q : B → S → Type 0} where
  -- What is known of a result, beside a condition on the state.
  pub bind_known :
      {G : A → Type 0} {m : Exec E S A} {k : A → Exec E S B}
      → Triple P m (λ a s. R s × G a) F
      → ((a : A) → G a → Triple R (k a) Q F)
      → Triple P (m >>= k) Q F
  bind_known {G} first rest =
      bind (λ a s. R s × G a) first (λ a. record { run = λ s p. (rest a p.1).run s p.0 })

-- A test that is known to be passed, and a result that is known.
module _ {ℓ} {E S : Type 0} {A : Type ℓ} {P F : S → Type 0} {Q : A → S → Type 0} where
  pub passes :
      (b : Bool) (e : E) {k : Exec E S A}
      → b ≡ true
      → Triple P k Q F
      → Triple P (require b e >> k) Q F
  unfolding require ◌>>◌ pure throw
  passes true e same t = t
  passes false e same t = absurd (cc)

  pub pure_then :
      {B : Type 0} (b : B) (k : B → Exec E S A) → Triple P (k b) Q F → Triple P (pure b >>= k) Q F
  unfolding pure ◌>>=◌
  pure_then b k t = record { run = λ s p. t.run s p }
