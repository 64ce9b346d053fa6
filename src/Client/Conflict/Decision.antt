-- ===== src/Client/Conflict/Decision.antt =====
-- What `destination` of crates/client/src/transfers/conflict.rs decides, whatever the peers answer.
use mathlib.Core.Path.{subst}
use remote_codex.Base.{◌≡◌, refl, sym, ap, ◌∙◌, Bool, true, false, ◌&&◌, Option, none, some, ok}
use remote_codex.Transfer.{Stamp}
use remote_codex.Session.Errors.{ClientError}
use remote_codex.Exec.{◌>>◌, pure, modify}
use remote_codex.Exec.Triples.{
  Outcome, Triple, bind, seq, weaken, known, pure_lem, modify_lem, if_lem, gets_then,
}
use remote_codex.Client.Tasks.{Task, Item, Status, Choice, replace, keep_both, skip, merge}
use remote_codex.Client.Peers.{Outside, Client, find_stamp}
use remote_codex.Client.Copy.Calls.{Any}
use remote_codex.Client.Conflict.Consent.{
  suits, overwrites, Consent, allowed-suits, agreed, turned_down, outdated,
}
use remote_codex.Client.Conflict.{
  chosen, forgets, is_stale, allowed, expects, ask, decide, resolve, found_there, destination,
}
use remote_codex.Client.Conflict.Decided.{
  Saw, Decided, free, taken, left, unsure, find_stamp_lem, find_name_lem,
}

module _ {W : Type 0} (o : Outside W) where
  module _ (task : Task) (item : Item) (stamp : Stamp) where
    -- The destination was looked at, and the item is as it was.
    abbrev Looked : Client W → Type 0
    Looked c = ((c.item ≡ item) × (c.task ≡ task)) × Saw item.target (some stamp) c.history

    -- No choice of the user suits.
    abbrev Open : Type 0
    Open = (a : Choice) → Consent task item stamp a → suits stamp.kind item.stamp.kind a ≡ false

    abbrev Asked : Client W → Type 0
    Asked c =
        (c.task.view.status ≡ Status.conflict)
        × (c.task.view.conflict
            ≡ some (record {
              path = item.target;
              source = item.stamp.kind;
              destination = stamp.kind;
              expected = stamp;
            }))
        × Saw item.target (some stamp) c.history

    ask_with :
        (P : Client W → Type 0)
        → Open
        → ((c : Client W)
            → P c
            → (c.item.target ≡ item.target)
              × (c.item.stamp ≡ item.stamp)
              × Saw item.target (some stamp) c.history)
        → Triple P (ask stamp) (Decided task item) Any
    unfolding ask
    ask_with P undecided known_of =
        seq Asked
          (modify_lem _ (λ c p.
            let (target, source, saw) = known_of c p in
            (
              refl,
              (λ i. some (record {
                path = target i;
                source = (source i).kind;
                destination = stamp.kind;
                expected = stamp;
              })),
              saw,
            )))
          (pure_lem false (λ c p. unsure stamp refl undecided p.0 p.1 p.2))

    takes :
        (a : Choice)
        → Consent task item stamp a
        → (overwrites a && suits stamp.kind item.stamp.kind a) ≡ true
        → Triple {E = ClientError} Looked
            (modify (expects (some stamp)) >> pure true)
            (Decided task item)
            Any
    takes a consent fit =
        seq
          (λ c.
            (c.item ≡ record item { expected = some stamp })
            × Saw item.target (some stamp) c.history)
          (modify_lem _ (λ c p. (ap (λ (i : Item). record i { expected = some stamp }) p.0.0, p.1)))
          (pure_lem true (λ c p. taken stamp a refl consent fit p.0 p.1))

    abbrev Agrees : Choice → Type 0
    Agrees a = Consent task item stamp a × (suits stamp.kind item.stamp.kind a ≡ true)

    decide_lem :
        (choice : Option Choice)
        → ((a : Choice) → choice ≡ some a → Agrees a)
        → (choice ≡ none → Open)
        → Triple Looked (decide o choice stamp) (Decided task item) Any
    unfolding decide
    decide_lem none agrees undecided =
        ask_with Looked (undecided refl)
          (λ c p. (ap (λ (i : Item). i.target) p.0.0, ap (λ (i : Item). i.stamp) p.0.0, p.1))
    decide_lem (some skip) agrees undecided =
        seq
          (λ c. (c.item ≡ record item { skipped = true }) × Saw item.target (some stamp) c.history)
          (modify_lem _ (λ c p. (ap (λ (i : Item). record i { skipped = true }) p.0.0, p.1)))
          (pure_lem true (λ c p. left stamp refl (agrees skip refl).0 p.0 p.1))
    decide_lem (some replace) agrees undecided =
        takes replace (agrees replace refl).0 (agrees replace refl).1
    decide_lem (some merge) agrees undecided =
        takes merge (agrees merge refl).0 (agrees merge refl).1
    decide_lem (some keep_both) agrees undecided =
        gets_then (λ c. c.item)
          (λ it.
            weaken (λ c p. tt)
              (find_name_lem o task item stamp (agrees keep_both refl).0 9998 2 it.target))

    chosen-Agrees :
        (a : Choice) → is_stale task item stamp ≡ false → chosen task item stamp ≡ some a → Agrees a
    unfolding chosen is_stale
    chosen-Agrees a still e =
        let both =
          agreed (allowed stamp.kind item.stamp.kind) stamp item.choice task.policy
            task.view.conflict a still e in
        (both.0, sym (allowed-suits stamp.kind item.stamp.kind a) ∙ both.1)

    chosen-Open : chosen task item stamp ≡ none → Open
    unfolding chosen
    chosen-Open e a given =
        sym (allowed-suits stamp.kind item.stamp.kind a)
        ∙ turned_down (allowed stamp.kind item.stamp.kind) stamp item.choice task.policy
            task.view.conflict a e given

    stale-Open : is_stale task item stamp ≡ true → Open
    unfolding is_stale
    stale-Open e a given =
        outdated (suits stamp.kind item.stamp.kind) stamp item.choice task.policy task.view.conflict
          a e given

    resolve_known :
        (t : Task) (i : Item)
        → t ≡ task
        → i ≡ item
        → Triple Looked
            (elim (is_stale t i stamp) [
              | true ↦ modify forgets >> ask stamp
              | false ↦ decide o (chosen t i stamp) stamp
            ])
            (Decided task item)
            Any
    resolve_known t i same_task same_item =
        if_lem (is_stale t i stamp) _ _
          (λ stale.
            seq
              (λ c.
                (c.item.target ≡ item.target)
                × (c.item.stamp ≡ item.stamp)
                × Saw item.target (some stamp) c.history)
              (modify_lem _
                (λ c p. (ap (λ (i : Item). i.target) p.0.0, ap (λ (i : Item). i.stamp) p.0.0, p.1)))
              (ask_with _
                (stale-Open (sym (λ j. is_stale (same_task j) (same_item j) stamp) ∙ stale))
                (λ c p. p)))
          (λ still.
            decide_lem (chosen t i stamp)
              (λ a e.
                chosen-Agrees a (sym (λ j. is_stale (same_task j) (same_item j) stamp) ∙ still)
                  (sym (λ j. chosen (same_task j) (same_item j) stamp) ∙ e))
              (λ e. chosen-Open (sym (λ j. chosen (same_task j) (same_item j) stamp) ∙ e)))

    resolve_lem : Triple Looked (resolve o stamp) (Decided task item) Any
    unfolding resolve
    resolve_lem =
        gets_then (λ c. c)
          (λ d.
            weaken
              (λ c p. (
                (
                  ap (λ (b : Client W). b.task) p.1 ∙ p.0.0.1,
                  ap (λ (b : Client W). b.item) p.1 ∙ p.0.0.0,
                ),
                p.0,
              ))
              (known (λ (same : (d.task ≡ task) × (d.item ≡ item)).
                resolve_known d.task d.item same.0 same.1)))

  found_lem :
      (task : Task) (item : Item) (found : Option Stamp)
      → Triple
          (λ c. ((c.item ≡ item) × (c.task ≡ task)) × Saw item.target found c.history)
          (found_there o found)
          (Decided task item)
          Any
  unfolding found_there
  found_lem task item none =
      seq (λ c. (c.item ≡ record item { expected = none }) × Saw item.target none c.history)
        (modify_lem _ (λ c p. (ap (λ (i : Item). record i { expected = none }) p.0.0, p.1)))
        (pure_lem true (λ c p. free refl p.0 p.1))
  found_lem task item (some stamp) = resolve_lem task item stamp

  destination_lem :
      (task : Task) (item : Item)
      → Triple
          (λ c. ((c.item ≡ item) × (c.task ≡ task)) × (item.prepared ≡ false))
          (destination o)
          (Decided task item)
          Any
  unfolding destination
  destination_lem task item =
      gets_then (λ c. c.item)
        (λ it.
          weaken (λ c p. (p.1 ∙ p.0.0.0, (p.0.1, p.0.0)))
            (known (λ (same : it ≡ item). known (λ (fresh : item.prepared ≡ false).
              if_lem it.prepared _ _ (λ was. absurd (cc (ap (λ (i : Item). i.prepared) same)))
                (λ isnt.
                  bind
                    (λ found c.
                      ((c.item ≡ item) × (c.task ≡ task)) × Saw item.target found c.history)
                    (subst
                      (λ (i : Item).
                        Triple (λ c. (c.item ≡ item) × (c.task ≡ task))
                          (find_stamp o false i.root i.target)
                          (λ found c.
                            ((c.item ≡ item) × (c.task ≡ task)) × Saw item.target found c.history)
                          Any)
                      (sym same) (find_stamp_lem o item.target item.root (λ c w h e. e)))
                    (λ found. found_lem task item found))))))

-- If `destination` answers for an item that no call has changed anything for, then its last call has
-- found nothing at the item's path, and none is expected; or it has found a stamp there, and just
-- this is expected, for the user wants it replaced, a file by a file, or merged, a directory with a
-- directory; or the user wants both, and nothing is at the new path of the item; or wants the item
-- skipped, and it is; or the transfer waits for the user, who is asked about what was found, and who
-- has made no choice that suits it. A choice for the item counts only if the transfer's conflict is
-- none or about the stamp that was found, and comes before the choice for the whole transfer.
pub destination_decides :
    {W : Type 0} (o : Outside W) (c after : Client W) (goes_on : Bool)
    → c.item.prepared ≡ false
    → destination o c ≡ (ok goes_on, after)
    → Decided c.task c.item goes_on after
destination_decides o c after goes_on fresh e =
    subst (Outcome (Decided c.task c.item) Any) e
      ((destination_lem o c.task c.item).run c ((refl, refl), fresh))
