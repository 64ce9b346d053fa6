-- ===== src/Adapter/Goals/Sent.antt =====
-- What is asked of Codex for a goal: `params` of crates/codex-adapter/src/goals.rs.
use package.text.Mathlib.Text.{◌==◌ as str_eq}
use remote_codex.Base.{
  ℕ, String, ◌≡◌, refl, ap, Bool, true, false, not, ◌&&◌, ◌||◌, Option, none, some, Result, ok, err,
  if◌then◌else◌, ltb, length, ◌==◌, arith,
}
use mathlib.Core.Path.{subst}
use remote_codex.Config.Text.{text}
use remote_codex.Session.Errors.{Fault}
use remote_codex.Json.{Value, number, string, at}
use remote_codex.Adapter.Goals.{
  GoalAction, set, pause, resume, clear, budget, is_zero, is_blank, json_budget, params, invalid,
}

-- An objective, where one is sent, has a visible character and at most 4000.
abbrev pub objective_fits : Value → Bool
objective_fits (string s) = not (is_blank s) && not (ltb 4000 (length (text s)))
objective_fits _ = true

-- A budget, where one is sent, is not the text of zero.
abbrev pub budget_fits : String → Value → Bool
budget_fits zero_text (number s) = not (str_eq s zero_text)
budget_fits zero_text _ = true

abbrev pub Fits : String → (thread : String) → Value → Type 0
Fits zero_text thread v =
    (at v "threadId" ≡ string thread)
    × ((objective_fits (at v "objective") ≡ true)
        × (budget_fits zero_text (at v "tokenBudget") ≡ true))

abbrev value_in : Value → Result Fault (String × Value) → Value
value_in other (ok (method, v)) = v
value_in other (err e) = other

passed :
    (b : Bool) (message name method : String) (w v : Value)
    → (if b then invalid message else ok (name, w)) ≡ ok (method, v)
    → (b ≡ false) × (w ≡ v)
passed true message name method w v same = absurd (cc)
passed false message name method w v same = (refl, ap (value_in v) same)

fits_parts :
    (blank long nothing : Bool)
    → (blank || (long || nothing)) ≡ false
    → ((not blank && not long) ≡ true) × (nothing ≡ false)
fits_parts blank long nothing h = (ground arith, ground arith)

module _ (print : ℕ → String) (apart : (n : ℕ) → str_eq (print n) (print 0) ≡ true → n ≡ 0) where
  positive : (b : Option ℕ) → is_zero b ≡ false → budget_fits (print 0) (json_budget print b) ≡ true
  positive none h = refl
  positive (some n) h = by_text (str_eq (print n) (print 0)) refl
    where
      clash : n ≡ 0 → (n == 0) ≡ false → ⊥
      clash same differs = ground arith

      by_text : (b : Bool) → str_eq (print n) (print 0) ≡ b → not b ≡ true
      by_text true same = absurd (clash (apart n same) h)
      by_text false differs = refl

  -- If zero is printed as no other number is: what is asked of Codex for a goal names the thread, an
  -- objective in it has a visible character and at most 4000 in all, and a budget is not zero.
  pub goal_fits :
      (thread method : String) (action : GoalAction) (v : Value)
      → params print thread action ≡ ok (method, v)
      → Fits (print 0) thread v
  unfolding params
  goal_fits thread method (set objective token_budget) v same =
      let sent =
        passed (is_blank objective || (ltb 4000 (length (text objective)) || is_zero token_budget))
          _ _ _ _ _ same in
      let parts =
        fits_parts (is_blank objective) (ltb 4000 (length (text objective))) (is_zero token_budget)
          sent.0 in
      subst (Fits (print 0) thread) sent.1 (refl, (parts.0, positive token_budget parts.1))
  goal_fits thread method pause v same =
      subst (Fits (print 0) thread) (ap (value_in v) same) (refl, (refl, refl))
  goal_fits thread method resume v same =
      subst (Fits (print 0) thread) (ap (value_in v) same) (refl, (refl, refl))
  goal_fits thread method clear v same =
      subst (Fits (print 0) thread) (ap (value_in v) same) (refl, (refl, refl))
  goal_fits thread method (budget token_budget) v same =
      let sent = passed (is_zero token_budget) _ _ _ _ _ same in
      subst (Fits (print 0) thread) sent.1 (refl, (refl, positive token_budget sent.0))
