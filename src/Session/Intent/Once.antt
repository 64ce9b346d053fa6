-- ===== src/Session/Intent/Once.antt =====
-- What the recovery of crates/client/src/local/intent.rs continues: no turn that was cancelled, and
-- none twice.
use text.Mathlib.Text.{◌==◌ as str_eq}
use text.Mathlib.TextEquality.{eq_iff}
use remote_codex.Base.{
  ℕ, String, ◌≡◌, refl, sym, ap, Bool, true, false, not, Option, none, some, List, [], ◌∷◌, is_some,
  any, arith, if◌then◌else◌,
}
use remote_codex.Session.{SessionEvent, SessionStatus}
use remote_codex.Session.Intent.{
  Intent, observe, disconnect, cancel, is_cancelled, continuation, take_slot, release_slot,
  ask_resend, submitted, holds_text, Step, observes, disconnects, cancels, continues_as, continues,
  takes_slot, releases_slot, asks_resend, step, steps, with_status, not_cancelled,
}

-- The turn to be continued is not the one that was cancelled.
abbrev avoids : Option String → Option String → Bool
avoids cancelled none = true
avoids cancelled (some turn) = not (holds_text cancelled turn)

abbrev is_safe : Intent → Bool
is_safe i = avoids i.cancelled i.interrupted

avoids-not_cancelled : (c t : Option String) → avoids c (not_cancelled c t) ≡ true
avoids-not_cancelled c none = refl
avoids-not_cancelled c (some t) = ground arith

str_eq-flip : (a b : String) → str_eq a b ≡ true → str_eq b a ≡ true
str_eq-flip a b e = (eq_iff b a).1 (sym ((eq_iff a b).0 e))

avoids_new :
    (t : String) (o : Option String) → avoids (some t) (if holds_text o t then none else o) ≡ true
avoids_new t none = refl
avoids_new t (some x) = ground (arith, str_eq-flip t x)

observe_safe :
    (now : ℕ) (e : SessionEvent) (i : Intent) → is_safe i ≡ true → is_safe (observe now e i) ≡ true
unfolding observe
observe_safe now e i safe = ground arith

disconnect_safe :
    (fresh : String) (i : Intent) → is_safe i ≡ true → is_safe (disconnect fresh i) ≡ true
unfolding disconnect
disconnect_safe fresh i safe = ground arith

cancel_safe : (turn : String) (i : Intent) → is_safe (cancel turn i) ≡ true
unfolding cancel
cancel_safe turn i = avoids_new turn i.interrupted

continuation_safe :
    (rebuilt : Bool) (i : Intent) → is_safe i ≡ true → is_safe (continuation rebuilt i).1 ≡ true
unfolding continuation
continuation_safe rebuilt i safe = ground arith

step_safe : (s : Step) (i : Intent) → is_safe i ≡ true → is_safe (step s i) ≡ true
unfolding step take_slot release_slot ask_resend submitted
step_safe (observes now e) i safe = observe_safe now e i safe
step_safe (disconnects fresh) i safe = disconnect_safe fresh i safe
step_safe (cancels turn) i safe = cancel_safe turn i
step_safe (continues_as id) i safe = ground arith
step_safe (continues rebuilt) i safe = continuation_safe rebuilt i safe
step_safe takes_slot i safe = ground arith
step_safe releases_slot i safe = safe
step_safe asks_resend i safe = refl

steps_safe : (l : List Step) (i : Intent) → is_safe i ≡ true → is_safe (steps l i) ≡ true
unfolding steps
steps_safe [] i safe = safe
steps_safe (s ∷ rest) i safe = steps_safe rest (step s i) (step_safe s i safe)

safe_continuation :
    (i : Intent) (rebuilt : Bool) (episode turn : String)
    → is_safe i ≡ true
    → (continuation rebuilt i).0 ≡ some (episode, turn)
    → is_cancelled i turn ≡ false
unfolding continuation is_cancelled
safe_continuation i rebuilt episode turn safe e = ground arith

-- In a session that starts with any status, after any sequence of events, disconnections,
-- cancellations and messages, a turn that is continued is not the one cancelled last.
pub continuation_spares_cancelled :
    (status : SessionStatus) (l : List Step) (rebuilt : Bool) (episode turn : String)
    → (continuation rebuilt (steps l (with_status status))).0 ≡ some (episode, turn)
    → is_cancelled (steps l (with_status status)) turn ≡ false
continuation_spares_cancelled status l rebuilt episode turn e =
    safe_continuation (steps l (with_status status)) rebuilt episode turn
      (steps_safe l (with_status status) refl) e

-- The connection is not lost again.
abbrev pub is_disconnect : Step → Bool
is_disconnect (disconnects _) = true
is_disconnect _ = false

step_quiet :
    (s : Step) (i : Intent) → is_disconnect s ≡ false → i.episode ≡ none → (step s i).episode ≡ none
unfolding step observe cancel continuation take_slot release_slot ask_resend submitted
step_quiet (observes now e) i quiet gone = ground arith
step_quiet (disconnects fresh) i quiet gone = absurd (cc)
step_quiet (cancels turn) i quiet gone = gone
step_quiet (continues_as id) i quiet gone = ground arith
step_quiet (continues rebuilt) i quiet gone = ground arith
step_quiet takes_slot i quiet gone = ground arith
step_quiet releases_slot i quiet gone = gone
step_quiet asks_resend i quiet gone = refl

steps_quiet :
    (l : List Step) (i : Intent)
    → any is_disconnect l ≡ false
    → i.episode ≡ none
    → (steps l i).episode ≡ none
unfolding steps
steps_quiet [] i quiet gone = gone
steps_quiet (s ∷ rest) i quiet gone =
    steps_quiet rest (step s i) (ground arith) (step_quiet s i (ground arith) gone)

consumed :
    (i : Intent) (rebuilt : Bool) (episode turn : String)
    → (continuation rebuilt i).0 ≡ some (episode, turn)
    → (continuation rebuilt i).1.episode ≡ none
unfolding continuation
consumed i rebuilt episode turn e = ground arith

nothing_left : (i : Intent) (rebuilt : Bool) → i.episode ≡ none → (continuation rebuilt i).0 ≡ none
unfolding continuation
nothing_left i rebuilt gone = ground arith

-- Once a turn is continued, no sequence of steps without a disconnection makes another
-- continuation possible.
pub continuation_once :
    (i : Intent) (l : List Step) (first second : Bool) (episode turn : String)
    → any is_disconnect l ≡ false
    → (continuation first i).0 ≡ some (episode, turn)
    → (continuation second (steps l (continuation first i).1)).0 ≡ none
continuation_once i l first second episode turn quiet e =
    nothing_left (steps l (continuation first i).1) second
      (steps_quiet l (continuation first i).1 quiet (consumed i first episode turn e))

-- What a message leaves that has just taken the slot.
record Taken (taken : Intent) : Type 0 where
  waiting : is_some taken.pending_message ≡ true
  gone : taken.episode ≡ none
  forgotten : taken.interrupted ≡ none

slot-Taken : (i taken : Intent) → take_slot i ≡ some taken → Taken taken
unfolding take_slot
slot-Taken i taken e = slot_of (is_some i.pending_message) e
  where
    slot_of :
        (waiting : Bool)
        → (if waiting
            then none
            else some (record i {
              pending_message = some false;
              interrupted = none;
              episode = none;
              resume_goal = none;
            }))
          ≡ some taken
        → Taken taken
    slot_of true e = absurd (cc)
    slot_of false e = record {
      waiting = ap (λ o. elim o [ none ↦ true | some t ↦ is_some t.pending_message ]) (sym e);
      gone = ap (λ o. elim o [ none ↦ none | some t ↦ t.episode ]) (sym e);
      forgotten = ap (λ o. elim o [ none ↦ none | some t ↦ t.interrupted ]) (sym e);
    }

continuation_waits :
    (rebuilt : Bool) (i : Intent)
    → is_some i.pending_message ≡ true
    → continuation rebuilt i ≡ (none, i)
unfolding continuation
continuation_waits rebuilt i waiting = rw waiting refl

abbrev pub is_release : Step → Bool
is_release releases_slot = true
is_release _ = false

step_waits :
    (s : Step) (i : Intent)
    → is_release s ≡ false
    → is_some i.pending_message ≡ true
    → is_some (step s i).pending_message ≡ true
unfolding step observe disconnect cancel continuation take_slot ask_resend submitted
step_waits (observes now e) i held waiting = ground arith
step_waits (disconnects fresh) i held waiting = ground arith
step_waits (cancels turn) i held waiting = ground arith
step_waits (continues_as id) i held waiting = ground arith
step_waits (continues rebuilt) i held waiting = ground arith
step_waits takes_slot i held waiting = ground arith
step_waits releases_slot i held waiting = absurd (cc)
step_waits asks_resend i held waiting = waiting

steps_wait :
    (l : List Step) (i : Intent)
    → any is_release l ≡ false
    → is_some i.pending_message ≡ true
    → is_some (steps l i).pending_message ≡ true
unfolding steps
steps_wait [] i held waiting = waiting
steps_wait (s ∷ rest) i held waiting =
    steps_wait rest (step s i) (ground arith) (step_waits s i (ground arith) waiting)

step_forgets :
    (s : Step) (i : Intent)
    → is_disconnect s ≡ false
    → i.interrupted ≡ none
    → (step s i).interrupted ≡ none
unfolding step observe cancel continuation take_slot release_slot ask_resend submitted
step_forgets (observes now e) i quiet gone = ground arith
step_forgets (disconnects fresh) i quiet gone = absurd (cc)
step_forgets (cancels turn) i quiet gone = rw gone refl
step_forgets (continues_as id) i quiet gone = ground arith
step_forgets (continues rebuilt) i quiet gone = ground arith
step_forgets takes_slot i quiet gone = ground arith
step_forgets releases_slot i quiet gone = gone
step_forgets asks_resend i quiet gone = refl

steps_forget :
    (l : List Step) (i : Intent)
    → any is_disconnect l ≡ false
    → i.interrupted ≡ none
    → (steps l i).interrupted ≡ none
unfolding steps
steps_forget [] i quiet gone = gone
steps_forget (s ∷ rest) i quiet gone =
    steps_forget rest (step s i) (ground arith) (step_forgets s i (ground arith) gone)

-- A message takes the slot. As long as no step gives the slot back, whatever else happens, nothing
-- is continued, nothing is forgotten and a second message is refused. And as long as the connection
-- is not lost again, whatever else happens, no interrupted turn is remembered and nothing is
-- continued, also after the slot is given back.
pub message_first :
    (i taken : Intent) (l : List Step) (rebuilt : Bool)
    → take_slot i ≡ some taken
    → let now = steps l taken in
      (any is_release l ≡ false → (continuation rebuilt now ≡ (none, now)) × (take_slot now ≡ none))
      × (any is_disconnect l ≡ false
          → (now.interrupted ≡ none) × ((continuation rebuilt now).0 ≡ none))
unfolding take_slot
message_first i taken l rebuilt e =
    let took = slot-Taken i taken e in
    (
      λ held.
          let waiting = steps_wait l taken held took.waiting in
          (continuation_waits rebuilt (steps l taken) waiting, rw waiting refl),
      λ quiet. (
        steps_forget l taken quiet took.forgotten,
        nothing_left (steps l taken) rebuilt (steps_quiet l taken quiet took.gone),
      ),
    )
