-- ===== src/Transfer/Staging/Safety.antt =====
-- What the staging protocol of crates/transfer/src promises, whatever fails, whoever else changes
-- the destination, and whenever the endpoint is stopped.
use mathlib.Core.Path.{subst}
use remote_codex.Base.{
  ℕ, ◌≡◌, refl, sym, ap, ◌⊎◌, inl, inr, String, false, Option, none, some, List, Result, ok, err,
}
use remote_codex.Transfer.{Stamp, Reply, ready, Fault}
use remote_codex.Transfer.World.{Journal, Stage, Publication, World}
use remote_codex.Transfer.Triples.{Condition, At, Outcome}
use remote_codex.Transfer.Stages.{Endpoint}
use remote_codex.Transfer.Stages.Rules.{View, Overall, Held}
use remote_codex.Transfer.Stages.Holding.{held_map}
use remote_codex.Transfer.Staging.{prepare, commit}
use remote_codex.Transfer.Staging.Checkpoint.{Fits}
use remote_codex.Transfer.Staging.Resume.{Exactly, Resumes, prepare_rule}
use remote_codex.Transfer.Staging.Publication.{Published, Before, Settled}
use remote_codex.Transfer.Staging.Commit.{Seen, Reported, commit_rule}

module _ {A : Type 0} where
  pub either_way :
      (K : View) (r : Result Fault A × World)
      → Outcome (λ _. Overall K) (Overall K) r
      → At (Overall K) r.1
  either_way K (ok a, w) p = p
  either_way K (err e, w) p = p

  on_failure :
      (Q : Condition) (E : Condition) (r : Result Fault A × World)
      → ((s : Option Stage) (l : List Publication) → Q s l → E s l)
      → Outcome (λ _. Q) E r
      → At E r.1
  on_failure Q E (ok a, w) weak p = weak w.stage w.published p
  on_failure Q E (err e, w) weak p = p

  ok_value : (a b : A) → ◌≡◌ {A = Result Fault A} (ok a) (ok b) → a ≡ b
  ok_value a b e = ap (λ r. elim r [ ok x ↦ x | err f ↦ a ]) e

  on_answer :
      (Q : A → Condition) (E : Condition) (r : Result Fault A × World) (a : A)
      → r.0 ≡ ok a
      → Outcome Q E r
      → At (Q a) r.1
  on_answer Q E (ok a, w) b e p = subst (λ x. At (Q x) w) (ok_value a b e) p
  on_answer Q E (err f, w) b e p = absurd (cc)

-- A condition on the publications alone.
of_log :
    (P : List Publication → Type 0) (w : World) → At (Overall (λ c st l. P l)) w → P w.published
of_log P w p = of_stage w.stage p
  where
    of_stage : (s : Option Stage) → Overall (λ c st l. P l) s w.published → P w.published
    of_stage none q = q
    of_stage (some s) q = q

found_journal :
    (h : Endpoint) (j : Journal) (named : String) (w : World) (s : Stage)
    → w.stage ≡ some s
    → s.state ≡ some j
    → At (Overall (Before h j named w.published)) w
found_journal h j named w s here stored =
    subst (λ o. Overall (Before h j named w.published) o w.published) (sym here) (refl, stored)

reported_settled :
    (h : Endpoint) (j : Journal) (named : String) (earlier : List Publication)
    → (s : Option Stage) (l : List Publication) → Overall (Reported h j named earlier) s l
    → Overall (Settled h j named earlier) s l
reported_settled h j named earlier none l (inl p) = inr p
reported_settled h j named earlier none l (inr p) = inl p.0
reported_settled h j named earlier (some s) l (inl p) = inr p
reported_settled h j named earlier (some s) l (inr p) = inl p.0

-- A commit that finds the journal j of its token on disk either publishes nothing, or makes exactly
-- one publication, whatever fails or changes meanwhile: the file that it puts in place has the
-- digest that the commit names and the mode and the time of the source, and if no destination was
-- expected, nothing was replaced.
pub commit_publishes :
    (h : Endpoint) (j : Journal) (named : String) (w : World) (s : Stage)
    → w.stage ≡ some s
    → s.state ≡ some j
    → let after = (commit h named w).1.published in
      (after ≡ w.published) ⊎ Published h j named w.published after
commit_publishes h j named w s here stored = of_log _ (commit h named w).1 (
    on_failure _ _ (commit h named w) (reported_settled h j named w.published)
      ((commit_rule h j named w.published).run w (found_journal h j named w s here stored)))

-- A commit that answers, whatever fails or changes meanwhile, has put its file in place; or it has
-- published nothing, and there is a file of the source's length whose digest is the one that its
-- journal had recorded before.
pub commit_answers :
    (h : Endpoint) (j : Journal) (named : String) (w : World) (s : Stage) (r : Reply)
    → w.stage ≡ some s
    → s.state ≡ some j
    → (commit h named w).0 ≡ ok r
    → let after = (commit h named w).1.published in
      Published h j named w.published after ⊎ ((after ≡ w.published) × Seen h j)
commit_answers h j named w s r here stored answered = of_log _ (commit h named w).1 (
    on_answer _ _ (commit h named w) r answered
      ((commit_rule h j named w.published).run w (found_journal h j named w s here stored)))

-- If the staged file holds what its journal says of the file being sent, and `prepare` answers that
-- the transfer is to go on at the offset n, then the staged file is exactly the first n bytes of
-- the file being sent.
pub prepare_resumes :
    (h : Endpoint) (sent : List ℕ) (source : Stamp) (expected : Option Stamp) (w : World) (n : ℕ)
    → At (Overall (Fits sent)) w
    → (prepare h source expected w).0 ≡ ok (ready n false)
    → At (Held (λ c st l. Exactly sent h n c)) (prepare h source expected w).1
prepare_resumes h sent source expected w n fits answered =
    let m = prepare h source expected w in
    held_map (λ c st l. Fits sent c st l × Exactly sent h n c) (λ c st l. Exactly sent h n c)
      (λ c st l p. p.1) m.1.stage m.1.published
      (on_answer (Resumes sent h) _ m (ready n false) answered
        ((prepare_rule sent h source expected).run w fits))
