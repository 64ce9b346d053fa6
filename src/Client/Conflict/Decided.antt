-- ===== src/Client/Conflict/Decided.antt =====
-- What can become of an item in crates/client/src/transfers/conflict.rs, and the search for a name
-- that nothing has.
use mathlib.Core.Path.{subst}
use remote_codex.Base.{
  ℕ, zero, suc, ◌+◌, ◌≡◌, refl, sym, ap, ◌∙◌, Bool, true, false, ◌&&◌, Option, none, some, List, [],
  ◌∷◌,
}
use remote_codex.Transfer.{Stamp, stat}
use remote_codex.Config.Text.{Text}
use remote_codex.Session.Errors.{ClientError, argument}
use remote_codex.Exec.{◌>>◌, pure, modify}
use remote_codex.Exec.Triples.{
  Triple, bind, seq, conseq, weaken, pure_lem, throw_lem, modify_lem, gets_then,
}
use remote_codex.Client.Tasks.{Task, Item, Status, Choice, keep_both, skip}
use remote_codex.Client.Peers.{stats, Outside, Exchange, Client, M, find_stamp}
use remote_codex.Client.Peers.Rules.{call_lem, as_stat_lem}
use remote_codex.Client.Copy.Calls.{asked, Any}
use remote_codex.Client.Conflict.Consent.{suits, overwrites, Consent}
use remote_codex.Client.Conflict.{expects, find_name}

-- The last call has looked at this path of the destination's endpoint, and found this.
abbrev pub Saw : Text → Option Stamp → List Exchange → Type 0
Saw target found h =
    (extra : List ℕ) × (rest : List Exchange) × (h
      ≡ asked false (stats target) [] (stat found) extra ∷ rest)

-- What becomes of an item, with the answer whether the transfer goes on.
pub data Decided {W : Type 0} (task : Task) (item : Item) (goes_on : Bool) (after : Client W)
    : Type 0 where
  -- nothing stands at the path that it is sent to
  free :
      goes_on ≡ true
      → after.item ≡ record item { expected = none }
      → Saw item.target none after.history
      → Decided task item goes_on after
  -- the user wants both, and nothing stands at the new path
  beside :
      (stamp : Stamp)
      → goes_on ≡ true
      → Consent task item stamp keep_both
      → after.item.expected ≡ none
      → Saw after.item.target none after.history
      → Decided task item goes_on after
  -- the user wants exactly what was found there replaced, or merged
  taken :
      (stamp : Stamp) (a : Choice)
      → goes_on ≡ true
      → Consent task item stamp a
      → (overwrites a && suits stamp.kind item.stamp.kind a) ≡ true
      → after.item ≡ record item { expected = some stamp }
      → Saw item.target (some stamp) after.history
      → Decided task item goes_on after
  left :
      (stamp : Stamp)
      → goes_on ≡ true
      → Consent task item stamp skip
      → after.item ≡ record item { skipped = true }
      → Saw item.target (some stamp) after.history
      → Decided task item goes_on after
  -- the user has not chosen what suits, and is asked about what was found
  unsure :
      (stamp : Stamp)
      → goes_on ≡ false
      → ((a : Choice) → Consent task item stamp a → suits stamp.kind item.stamp.kind a ≡ false)
      → after.task.view.status ≡ Status.conflict
      → after.task.view.conflict
        ≡ some (record {
          path = item.target;
          source = item.stamp.kind;
          destination = stamp.kind;
          expected = stamp;
        })
      → Saw item.target (some stamp) after.history
      → Decided task item goes_on after

module _ {W : Type 0} (o : Outside W) where
  pub find_stamp_lem :
      {G : Client W → Type 0} (path : Text) (root : ℕ)
      → ((c : Client W) (w : W) (h : List Exchange) → G c → G (record c { world = w; history = h }))
      → Triple G (find_stamp o false root path) (λ s c. G c × Saw path s c.history) Any
  unfolding find_stamp
  find_stamp_lem {G} path root still =
      bind
        (λ r c.
          G c × ((rest : List Exchange) × (c.history ≡ asked false (stats path) [] r.0 r.1 ∷ rest)))
        (call_lem o false root (stats path) [] (λ c w a g. (still c w _ g, (c.history, refl)))
          (λ c w e g. tt))
        (λ r.
          conseq
            (λ s c p. (
              p.0.0,
              (r.1, p.0.1.0, p.0.1.1 ∙ (λ i. asked false (stats path) [] (p.1 i) r.1 ∷ p.0.1.0)),
            ))
            (as_stat_lem r.0 (λ c p. tt)))

  abbrev At : Text → Option Stamp → Client W → Type 0
  At target found c = (c.item.target ≡ target) × Saw target found c.history

  module _ (task : Task) (item : Item) (stamp : Stamp)
      (both : Consent task item stamp keep_both) where
    -- A name that nothing has is taken.
    try_name :
        (target : Text) (found : Option Stamp) (rest : M W Bool)
        → Triple Any rest (Decided task item) Any
        → Triple {E = ClientError}
            (At target found)
            (elim found as (λ _. M W Bool) [
              | none ↦ modify (expects none) >> pure true
              | some other ↦ rest
            ])
            (Decided task item)
            Any
    try_name target none rest more =
        seq (λ c. At target none c × (c.item.expected ≡ none)) (modify_lem _ (λ c p. (p, refl)))
          (pure_lem true (λ c p.
            beside stamp refl both p.1 (subst (λ t. Saw t none c.history) (sym p.0.0) p.0.1)))
    try_name target (some other) rest more = weaken (λ c p. tt) more

    pub find_name_lem :
        (count suffix : ℕ) (original : Text)
        → Triple Any (find_name o count suffix original) (Decided task item) Any
    unfolding find_name
    find_name_lem zero suffix original =
        throw_lem (argument "Could not find an unused destination name.") (λ c p. tt)
    find_name_lem (suc count) suffix original = seq Any (modify_lem _ (λ c p. tt)) (
        gets_then (λ c. c.item)
          (λ it.
            weaken (λ c p. ap (λ (i : Item). i.target) (sym p.1))
              (bind (λ found. At it.target found)
                (find_stamp_lem it.target it.root (λ c w h same. same))
                (λ found.
                  try_name it.target found (find_name o count (suffix + 1) original)
                    (find_name_lem count (suffix + 1) original)))))
