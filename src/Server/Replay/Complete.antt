-- ===== src/Server/Replay/Complete.antt =====
-- Nothing is skipped: what `execution_events` of crates/server/src/storage/execution.rs gives to an
-- attachment is all that was appended after its cursor, in order.
use mathlib.Core.Path.{subst}
use mathlib.Core.List.{append_assoc, append-nil}
use remote_codex.Base.{
  ℕ, ◌+◌, ◌-◌, ◌≤◌, ◌<◌, max, ◌≡◌, refl, sym, ap, ◌∙◌, String, Bool, true, false, List, [], ◌∷◌,
  ◌++◌, ok, err, if◌then◌else◌, ltb, leb, length, take, arith, All,
}
use remote_codex.Server.Replay.{
  Event, Replay, size, total, expired, keep, trim, append_record, highest, retired,
  prune_acknowledged, execution_events, Step, appends, acknowledges, elsewhere, step, steps, opened,
}
use remote_codex.Server.Replay.Cuts.{
  Above, UpTo, Ascending, UpTo-mono, Above-mono, Above-max, UpTo-append, Cut, trim_cuts, keep_cuts,
  Below, All-right, All-end, Below-mono, Ascending-end, trim_floor, highest-le, UpTo-take,
  UpTo-keep, UpTo-of_Below, UpTo-of_less,
}

-- All that was ever appended, with its cursors.
unfoldable pub appended : List Step → Replay → List Event
appended [] r = []
appended (appends text ∷ rest) r =
    record { cursor = r.next; record_text = text } ∷ appended rest (step (appends text) r)
appended (acknowledges ack ∷ rest) r = appended rest (step (acknowledges ack) r)
appended (elsewhere ∷ rest) r = appended rest (step elsewhere r)

-- The events are the last of all, and just those above the floor.
pub record Holds (before : List Event) (r : Replay) : Type 0 where
  pub dropped : List Event
  pub all_of : before ≡ dropped ++ r.events
  pub old : UpTo r.floor dropped
  pub recent : Above r.floor r.events
  pub ordered : Ascending r.events
  pub next_of : All (λ e. e.cursor < r.next) r.events
  pub floor_of : r.floor < r.next

-- What was cut off goes to what was dropped.
Holds-cut :
    (before events kept : List Event) (r : Replay) (dropped : List Event) (at next bytes : ℕ)
    → before ≡ dropped ++ events
    → UpTo r.floor dropped
    → Above r.floor events
    → Below next events
    → r.floor < next
    → at < next
    → Cut events kept at
    → Holds before (record { events = kept; bytes = bytes; floor = max r.floor at; next = next })
Holds-cut before events kept r dropped at next bytes all_of old recent low floor_low at_low cut =
    let above = subst (Above r.floor) cut.parts recent in
    let below = subst (Below next) cut.parts low in
    record {
      dropped = dropped ++ cut.removed;
      all_of = all_of ∙ ap (◌++◌ dropped) cut.parts ∙ sym (append_assoc dropped cut.removed kept);
      old =
          UpTo-append (max r.floor at) dropped cut.removed
            (UpTo-mono r.floor (max r.floor at) dropped (omega arith) old)
            (UpTo-mono at (max r.floor at) cut.removed (omega arith) cut.below);
      recent =
          Above-max r.floor at kept (All-right (λ e. r.floor < e.cursor) cut.removed kept above)
            cut.over;
      ordered = cut.in_order;
      next_of = All-right (λ e. e.cursor < next) cut.removed kept below;
      floor_of = omega arith;
    }

pub append-Holds :
    (before : List Event) (text : String) (r : Replay)
    → Holds before r
    → Holds
        (before ++ (record { cursor = r.next; record_text = text } ∷ []))
        (append_record text r).1
unfolding append_record
append-Holds before text r h =
    let added : Event = record { cursor = r.next; record_text = text } in
    let events = r.events ++ (added ∷ []) in
    let above = All-end (λ e. r.floor < e.cursor) r.events added h.recent h.floor_of in
    let up = Ascending-end r.events added h.ordered h.next_of in
    let low =
      All-end (λ e. e.cursor < r.next + 1) r.events added
        (Below-mono r.next (r.next + 1) r.events (omega arith) h.next_of) (omega arith) in
    let top = UpTo-of_Below r.next events low in
    let positive = Above-mono 0 r.floor events (omega arith) above in
    Holds-cut (before ++ (added ∷ [])) events (trim (r.bytes + size added) 0 events).0 r h.dropped
      (trim (r.bytes + size added) 0 events).2 (r.next + 1) (trim (r.bytes + size added) 0 events).1
      (ap (λ l. l ++ (added ∷ [])) h.all_of ∙ append_assoc h.dropped r.events (added ∷ [])) h.old
      above low (omega (arith, h.floor_of))
      (omega (arith, trim_floor r.next (r.bytes + size added) 0 events top (omega arith)))
      (trim_cuts (r.bytes + size added) 0 events positive up).0

pub prune-Holds :
    (before : List Event) (ack : ℕ) (r : Replay)
    → Holds before r
    → Holds before (prune_acknowledged ack r)
unfolding prune_acknowledged
prune-Holds before ack r h =
    let gone = retired ack r.events in
    let up =
      UpTo-keep (r.next - 1) (λ e. leb e.cursor ack) (take (length r.events - 128) r.events)
        (UpTo-take (r.next - 1) (length r.events - 128) r.events
          (UpTo-of_less r.next r.events h.next_of)) in
    Holds-cut before r.events (keep (λ e. ltb (highest gone) e.cursor) r.events) r h.dropped
      (highest gone) r.next (r.bytes - total gone) h.all_of h.old h.recent h.next_of h.floor_of
      (omega (arith, highest-le (r.next - 1) gone up, h.floor_of))
      (keep_cuts (highest gone) r.events h.ordered)

pub elsewhere-Holds :
    (before : List Event) (r : Replay)
    → Holds before r
    → Holds before (record r { next = r.next + 1 })
elsewhere-Holds before r h = record {
  dropped = h.dropped;
  all_of = h.all_of;
  old = h.old;
  recent = h.recent;
  ordered = h.ordered;
  next_of = Below-mono r.next (r.next + 1) r.events (omega arith) h.next_of;
  floor_of = omega (arith, h.floor_of);
}

steps_hold :
    (before : List Event) (l : List Step) (r : Replay)
    → Holds before r
    → Holds (before ++ appended l r) (steps l r)
unfolding steps appended step
steps_hold before [] r h = subst (λ b. Holds b r) (sym (append-nil before)) h
steps_hold before (appends text ∷ rest) r h =
    let added : Event = record { cursor = r.next; record_text = text } in
    subst (λ b. Holds b (steps rest (append_record text r).1))
      (append_assoc before (added ∷ []) (appended rest (append_record text r).1))
      (steps_hold (before ++ (added ∷ [])) rest (append_record text r).1
        (append-Holds before text r h))
steps_hold before (acknowledges ack ∷ rest) r h =
    steps_hold before rest (prune_acknowledged ack r) (prune-Holds before ack r h)
steps_hold before (elsewhere ∷ rest) r h =
    steps_hold before rest (record r { next = r.next + 1 }) (elsewhere-Holds before r h)

keep-dropped :
    (after floor : ℕ) (dropped events : List Event)
    → floor ≤ after
    → UpTo floor dropped
    → keep (λ e. ltb after e.cursor) (dropped ++ events) ≡ keep (λ e. ltb after e.cursor) events
keep-dropped after floor [] events le old = refl
keep-dropped after floor (e ∷ dropped) events le old =
    let under : ltb after e.cursor ≡ false = ground arith in
    rw under (keep-dropped after floor dropped events le old.1)

pub opened-Holds : (next : ℕ) → Holds [] (opened next)
opened-Holds next = record {
  dropped = [];
  all_of = refl;
  old = tt;
  recent = tt;
  ordered = tt;
  next_of = tt;
  floor_of = omega arith;
}

given :
    (before : List Event) (r : Replay) (after : ℕ) (late : Bool) (rows : List Event)
    → ltb after r.floor ≡ late
    → (if late then err expired else ok (take 64 (keep (λ e. ltb after e.cursor) r.events)))
      ≡ ok rows
    → Holds before r
    → rows ≡ take 64 (keep (λ e. ltb after e.cursor) before)
given before r after true rows at e h = absurd (cc)
given before r after false rows at e h =
    let same : take 64 (keep (λ e. ltb after e.cursor) r.events) ≡ rows = cc in
    sym same
    ∙ ap (take 64) (
        sym (keep-dropped after r.floor h.dropped r.events (ground arith) h.old)
        ∙ ap (keep (λ e. ltb after e.cursor)) (sym h.all_of))

-- After any events of a channel, acknowledgements and events of other channels: whatever is given to
-- an attachment is just the events that were ever appended after its cursor, in their order and from
-- the first on, 64 at most. So an attachment skips none: what was dropped makes it fail.
pub replay_complete :
    (next : ℕ) (l : List Step) (after : ℕ) (rows : List Event)
    → execution_events after (steps l (opened next)) ≡ ok rows
    → rows ≡ take 64 (keep (λ e. ltb after e.cursor) (appended l (opened next)))
unfolding execution_events
replay_complete next l after rows e =
    let h = steps_hold [] l (opened next) (opened-Holds next) in
    let r = steps l (opened next) in
    given (appended l (opened next)) r after (ltb after r.floor) rows refl e h
