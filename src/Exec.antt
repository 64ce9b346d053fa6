-- ===== src/Exec.antt =====
-- Code that changes a state and may fail: Rust's `async fn` on `&mut self` with `?`. What was
-- changed before a failure stays changed, so the state comes back beside the error too.
pub mod Triples
use remote_codex.Base.{ℕ, Bool, true, false, Option, none, some, List, [], ◌∷◌, Result, ok, err}

abbrev pub Exec {ℓ} : Type 0 → Type 0 → Type ℓ → Type ℓ
Exec E S A = S → Result E A × S

module _ {ℓ κ} {E S : Type 0} {A : Type ℓ} {B : Type κ} where
  abbrev pub continue : (A → Exec E S B) → Result E A × S → Result E B × S
  continue f (ok a, s) = f a s
  continue f (err e, s) = (err e, s)

  infixl 5 ◌>>=◌ ◌>>◌
  unfoldable pub ◌>>=◌ : Exec E S A → (A → Exec E S B) → Exec E S B
  ◌>>=◌ m f s = continue f (m s)

  unfoldable pub ◌>>◌ : Exec E S A → Exec E S B → Exec E S B
  ◌>>◌ m k s = continue (λ _. k) (m s)

module _ {ℓ} {E S : Type 0} {A : Type ℓ} where
  unfoldable pub pure : A → Exec E S A
  pure a s = (ok a, s)

  unfoldable pub throw : E → Exec E S A
  throw e s = (err e, s)

  unfoldable pub gets : (S → A) → Exec E S A
  gets f s = (ok (f s), s)

  -- `ok_or`
  unfoldable pub give : Option A → E → Exec E S A
  unfolding pure throw
  give none e = throw e
  give (some a) e = pure a

  unfoldable pub lift : Result E A → Exec E S A
  unfolding pure throw
  lift (ok a) = pure a
  lift (err e) = throw e

  abbrev pub caught : Result E A × S → Result E (Result E A) × S
  caught (r, s) = (ok r, s)

  -- A call whose failure the code looks at, and does not pass on.
  unfoldable pub attempt : Exec E S A → Exec E S (Result E A)
  attempt m s = caught (m s)

module _ {E S : Type 0} where
  unfoldable pub modify : (S → S) → Exec E S (Unit {0})
  modify f s = (ok tt, f s)

  unfoldable pub require : Bool → E → Exec E S (Unit {0})
  unfolding pure throw
  require true e = pure tt
  require false e = throw e

  unfoldable pub when : Bool → Exec E S (Unit {0}) → Exec E S (Unit {0})
  unfolding pure
  when true m = m
  when false m = pure tt
