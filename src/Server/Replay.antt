-- ===== src/Server/Replay.antt =====
-- crates/server/src/storage/retention.rs and `execution_events` of storage/execution.rs: the events
-- of one channel that are kept for an attachment that comes back, as the rows of their table in the
-- order of their cursors. Each function is one transaction, which changes nothing if it fails.
-- Sizes are i64 in the code and ℕ here: what is subtracted is never more than what it is taken from
-- (`Replay/Bounds`).
pub mod Cuts
pub mod Complete
pub mod Bounds
mod Tests
use remote_codex.Base.{
  ℕ, ◌+◌, ◌-◌, ◌*◌, max, String, Bool, true, false, Option, none, some, List, [], ◌∷◌, ◌++◌, Result,
  ok, err, if◌then◌else◌, ltb, leb, length, take,
}
use remote_codex.Config.Text.{text, byte_length}
use remote_codex.Session.Errors.{Fault}

pub record Event : Type 0 where
  pub cursor : ℕ
  pub record_text : String

-- The channel's row and its events. `next` is the cursor that AUTOINCREMENT gives next: the table is
-- shared by all channels.
pub record Replay : Type 0 where
  pub events : List Event
  pub bytes : ℕ
  pub floor : ℕ
  pub next : ℕ

-- 8 MiB.
abbrev pub replay_limit : ℕ
replay_limit = 8388608

abbrev pub size : Event → ℕ
size e = byte_length (text e.record_text)

abbrev pub total : List Event → ℕ
total [] = 0
total (e ∷ events) = size e + total events

abbrev pub keep {ℓ} : {A : Type ℓ} → (A → Bool) → List A → List A
keep p [] = []
keep p (a ∷ l) = let rest = keep p l in if p a then a ∷ rest else rest

-- The loop over the oldest events: what is left, its bytes, and the last cursor deleted.
unfoldable pub trim : ℕ → ℕ → List Event → List Event × ℕ × ℕ
trim bytes floor [] = ([], bytes, floor)
trim bytes floor (e ∷ events) =
    let rest = trim (bytes - size e) e.cursor events in
    if ltb replay_limit bytes then rest else (e ∷ events, bytes, floor)

abbrev trimmed : Replay → List Event × ℕ × ℕ → Replay
trimmed r (events, bytes, floor) = record {
  events = events;
  bytes = bytes;
  floor = max r.floor floor;
  next = r.next + 1;
}

-- `append_record`, with the cursor of the new event.
unfoldable pub append_record : String → Replay → ℕ × Replay
unfolding trim
append_record text r =
    let added : Event = record { cursor = r.next; record_text = text } in
    (r.next, trimmed r (trim (r.bytes + size added) 0 (r.events ++ (added ∷ []))))

abbrev highest : List Event → ℕ
highest [] = 0
highest (e ∷ events) = max e.cursor (highest events)

-- Acknowledged, and not among the last 128.
abbrev pub retired : ℕ → List Event → List Event
retired ack events = keep (λ e. leb e.cursor ack) (take (length events - 128) events)

unfoldable pub prune_acknowledged : ℕ → Replay → Replay
prune_acknowledged ack r =
    let gone = retired ack r.events in
    record r {
      events = keep (λ e. ltb (highest gone) e.cursor) r.events;
      bytes = r.bytes - total gone;
      floor = max r.floor (highest gone);
    }

abbrev expired : Fault
expired = record {
  code = "EXECUTION_REPLAY_EXPIRED";
  message = "execution replay buffer expired; inspect retained jobs";
  outcome_unknown = true;
}

-- `execution_events`: the events after a cursor, 64 at most.
unfoldable pub execution_events : ℕ → Replay → Result Fault (List Event)
execution_events after r =
    if ltb after r.floor
    then err expired
    else ok (take 64 (keep (λ e. ltb after e.cursor) r.events))

-- What happens to a channel's events. An event of another channel takes a cursor.
pub data Step : Type 0 where
  appends : (text : String) → Step
  acknowledges : (ack : ℕ) → Step
  elsewhere : Step

unfoldable pub step : Step → Replay → Replay
unfolding append_record prune_acknowledged
step (appends text) r = (append_record text r).1
step (acknowledges ack) r = prune_acknowledged ack r
step elsewhere r = record r { next = r.next + 1 }

unfoldable pub steps : List Step → Replay → Replay
unfolding step
steps [] r = r
steps (s ∷ rest) r = steps rest (step s r)

-- The row of a new channel. Cursors start at 1.
abbrev pub opened : ℕ → Replay
opened next = record { events = []; bytes = 0; floor = 0; next = next + 1 }
