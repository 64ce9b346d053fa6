-- ===== src/Session/Intent/Tests.antt =====
-- crates/client/src/local/intent.rs on concrete sessions.
use remote_codex.Base.{◌≡◌, refl, any, true, false, none, some, List, [], ◌∷◌}
use remote_codex.Session.{TurnTiming, default_status, turn_started, turn_completed, completed}
use remote_codex.Session.Intent.{
  Intent, observe, disconnect, cancel, is_cancelled, continuation, take_slot, Step, observes,
  disconnects, cancels, continues, releases_slot, step, steps, with_status,
}
use remote_codex.Session.Intent.Once.{
  continuation_spares_cancelled, continuation_once, message_first, is_release, is_disconnect,
}

abbrev no_timing : TurnTiming
no_timing = record { started_at = none; completed_at = none; duration_ms = none }

-- A turn is cancelled, another starts, and the connection is lost.
abbrev lost : List Step
lost =
    observes 1 (turn_started "first" no_timing)
    ∷ cancels "first"
    ∷ observes 2 (turn_started "second" no_timing)
    ∷ disconnects "e"
    ∷ []

lost_continues :
    (continuation true (steps lost (with_status default_status))).0 ≡ some ("e", "second")
unfolding continuation steps step observe disconnect cancel
lost_continues = refl

continuation_spares_cancelled_example :
    is_cancelled (steps lost (with_status default_status)) "second" ≡ false
continuation_spares_cancelled_example =
    continuation_spares_cancelled default_status lost true "e" "second" lost_continues

abbrev session : Intent
session = record (with_status default_status) { interrupted = some "turn"; episode = some "e" }

session_continues : (continuation true session).0 ≡ some ("e", "turn")
unfolding continuation
session_continues = refl

continuation_once_example :
    (continuation true (
      steps
        (observes 3 (turn_completed "turn" no_timing completed) ∷ continues true ∷ [])
        (continuation true session).1)).0
    ≡ none
continuation_once_example =
    continuation_once session
      (observes 3 (turn_completed "turn" no_timing completed) ∷ continues true ∷ []) true true "e"
      "turn" refl session_continues

abbrev waiting : Intent
waiting = record session { pending_message = some false; interrupted = none; episode = none }

session_waits : take_slot session ≡ some waiting
unfolding take_slot
session_waits = refl

-- The message is cancelled, and gives the slot back.
abbrev given_back : List Step
given_back = cancels "second" ∷ releases_slot ∷ []

message_first_example :
    let now = steps given_back waiting in
    (any is_release given_back ≡ false
      → (continuation true now ≡ (none, now)) × (take_slot now ≡ none))
    × (any is_disconnect given_back ≡ false
        → (now.interrupted ≡ none) × ((continuation true now).0 ≡ none))
message_first_example = message_first session waiting given_back true session_waits
