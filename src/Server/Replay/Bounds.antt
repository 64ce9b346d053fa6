-- ===== src/Server/Replay/Bounds.antt =====
-- The bytes that crates/server/src/storage/retention.rs accounts are those that it keeps, and at
-- most 8 MiB.
use mathlib.Core.Path.{subst}
use remote_codex.Base.{
  ℕ, zero, suc, ◌+◌, ◌-◌, ◌≤◌, max, String, ◌≡◌, refl, sym, ap, ◌∙◌, false, List, [], ◌∷◌, ◌++◌,
  Bool-cases, inl, inr, ltb, leb, length, take, arith,
}
use remote_codex.Server.Replay.{
  Event, Replay, size, total, keep, trim, append_record, highest, prune_acknowledged, Step, appends,
  acknowledges, elsewhere, step, steps, opened, replay_limit,
}
use remote_codex.Server.Replay.Cuts.{Above, Ascending, Above-mono, keep_none}
use remote_codex.Server.Replay.Complete.{
  Holds, opened-Holds, append-Holds, prune-Holds, elsewhere-Holds,
}

-- The bytes accounted.
abbrev pub IsCounted : Replay → Type 0
IsCounted r = (r.bytes ≡ total r.events) × (r.bytes ≤ replay_limit)

trim_counts :
    (bytes floor : ℕ) (events : List Event)
    → bytes ≡ total events
    → ((trim bytes floor events).1 ≡ total (trim bytes floor events).0)
      × ((trim bytes floor events).1 ≤ replay_limit)
unfolding trim
trim_counts bytes floor [] same = (same, omega arith)
trim_counts bytes floor (e ∷ events) same = elim (Bool-cases (ltb replay_limit bytes)) [
  | inl full ↦ rw full (trim_counts (bytes - size e) e.cursor events (omega arith))
  | inr room ↦ rw room (same, ground arith)
]

total-append : (xs ys : List Event) → total (xs ++ ys) ≡ total xs + total ys
total-append [] ys = omega arith
total-append (x ∷ xs) ys = omega (arith, total-append xs ys)

-- Above a cursor, a lower bound that is no higher makes no difference.
keep-max :
    (at m : ℕ) (events : List Event)
    → Above at events
    → keep (λ e. ltb (max at m) e.cursor) events ≡ keep (λ e. ltb m e.cursor) events
keep-max at m [] above = refl
keep-max at m (e ∷ events) above =
    let same : ltb (max at m) e.cursor ≡ ltb m e.cursor = ground arith in
    rw same (rw (keep-max at m events above.1) refl)

keep_under :
    (ack k : ℕ) (events : List Event)
    → Above ack events
    → keep (λ e. leb e.cursor ack) (take k events) ≡ []
keep_under ack zero events above = refl
keep_under ack (suc k) [] above = refl
keep_under ack (suc k) (e ∷ events) above =
    let over : leb e.cursor ack ≡ false = ground arith in rw over (keep_under ack k events above.1)

abbrev gone_of : ℕ → ℕ → List Event → List Event
gone_of ack k events = keep (λ e. leb e.cursor ack) (take k events)

-- What is retired and what stays are all there was.
abbrev Parts : List Event → List Event → Type 0
Parts gone events =
    total (keep (λ e. ltb (highest gone) e.cursor) events) + total gone ≡ total events

Parts-first :
    (e : Event) (gone events : List Event)
    → Above e.cursor events
    → Parts gone events
    → Parts (e ∷ gone) (e ∷ events)
Parts-first e gone events above parts =
    let low : ltb (max e.cursor (highest gone)) e.cursor ≡ false = ground arith in
    rw low (rw (keep-max e.cursor (highest gone) events above) (omega (arith, parts)))

Parts-none : (events : List Event) → Above 0 events → Parts [] events
Parts-none events above = ap (λ l. total l + 0) (keep_none 0 events above) ∙ omega arith

retired-Parts :
    (ack k : ℕ) (events : List Event)
    → Above 0 events
    → Ascending events
    → Parts (gone_of ack k events) events
retired-Parts ack zero events above up = Parts-none events above
retired-Parts ack (suc k) [] above up = refl
retired-Parts ack (suc k) (e ∷ events) above up = elim (Bool-cases (leb e.cursor ack)) [
  | inl acked ↦
      let here : (e ∷ gone_of ack k events) ≡ gone_of ack (suc k) (e ∷ events) = rw acked refl in
      subst (λ g. Parts g (e ∷ events)) here
        (Parts-first e (gone_of ack k events) events up.0 (retired-Parts ack k events above.1 up.1))
  | inr fresh ↦
      let beyond = Above-mono ack e.cursor events (ground arith) up.0 in
      let here : [] ≡ gone_of ack (suc k) (e ∷ events) =
        sym (rw fresh (keep_under ack k events beyond)) in
      subst (λ g. Parts g (e ∷ events)) here (Parts-none (e ∷ events) above)
]

append_counts : (text : String) (r : Replay) → IsCounted r → IsCounted (append_record text r).1
unfolding append_record
append_counts text r (same, low) =
    let added : Event = record { cursor = r.next; record_text = text } in
    trim_counts (r.bytes + size added) 0 (r.events ++ (added ∷ []))
      (omega (arith, total-append r.events (added ∷ [])))

prune_counts :
    (before : List Event) (ack : ℕ) (r : Replay)
    → Holds before r
    → IsCounted r
    → IsCounted (prune_acknowledged ack r)
unfolding prune_acknowledged
prune_counts before ack r h (same, low) =
    let parts =
      retired-Parts ack (length r.events - 128) r.events
        (Above-mono 0 r.floor r.events (omega arith) h.recent) h.ordered in
    (omega (arith, parts), omega arith)

steps_count :
    (before : List Event) (l : List Step) (r : Replay)
    → Holds before r
    → IsCounted r
    → IsCounted (steps l r)
unfolding steps step
steps_count before [] r h c = c
steps_count before (appends text ∷ rest) r h c =
    steps_count (before ++ (record { cursor = r.next; record_text = text } ∷ [])) rest
      (append_record text r).1 (append-Holds before text r h) (append_counts text r c)
steps_count before (acknowledges ack ∷ rest) r h c =
    steps_count before rest (prune_acknowledged ack r) (prune-Holds before ack r h)
      (prune_counts before ack r h c)
steps_count before (elsewhere ∷ rest) r h c =
    steps_count before rest (record r { next = r.next + 1 }) (elsewhere-Holds before r h) c

-- From a new channel on, whatever happens: the bytes accounted are those of the events kept, and at
-- most 8 MiB, whatever the sizes of the events.
pub replay-IsCounted : (next : ℕ) (l : List Step) → IsCounted (steps l (opened next))
replay-IsCounted next l = steps_count [] l (opened next) (opened-Holds next) (refl, omega arith)
