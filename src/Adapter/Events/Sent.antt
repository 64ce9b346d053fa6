-- ===== src/Adapter/Events/Sent.antt =====
-- What the client says in the place of Codex, and the answer to an approval:
-- crates/codex-adapter/src/events.rs.
use package.text.Mathlib.Text.{◌==◌ as str_eq}
use remote_codex.Base.{
  String, ◌≡◌, refl, sym, ap, ◌∙◌, Bool, true, false, not, ◌&&◌, ◌||◌, none, some, Result, ok, err,
  if◌then◌else◌,
}
use remote_codex.Transfer.Staging.Arrival.{str_eq_refl}
use remote_codex.Session.Errors.{Fault}
use remote_codex.Session.{TurnTiming, interrupted, failed, turn_completed}
use remote_codex.Json.{Value, string, object, end, field, get, at, as_str, or_null, is_text}
use remote_codex.Adapter.Status as Status
use remote_codex.Adapter.Goals as Goals
use remote_codex.Adapter.Events.{
  Outside, known, warned, session_event, public_event, notified, by_method, thread_id,
  interrupted_message, failed_message, warning, resolved, interaction_resolved, requested, Event,
  approval_requested, interaction_requested, ApprovalDecision, accept_once, cancel,
  approval_response, decision, is_other, with_id,
}
use remote_codex.Adapter.Options.{or, unwrap_or}
use remote_codex.Adapter.Forms.{project}
use mathlib.Core.Path.{subst}

abbrev pub no_timing : TurnTiming
no_timing = record { started_at = none; completed_at = none; duration_ms = none }

module _ (o : Outside) (thread turn words : String) where
  -- A session takes the messages that the client writes in the place of Codex as they are meant:
  -- the turn was interrupted, or failed with this text, or there is this warning; and a session of
  -- another thread takes none of them.
  pub own_messages_read :
      (other : String)
      → str_eq thread other ≡ false
      → ((session_event o (interrupted_message thread turn) thread
            ≡ some (known (turn_completed turn no_timing interrupted)))
          × ((session_event o (failed_message thread turn words) thread
                ≡ some (known (turn_completed turn no_timing (failed words))))
              × (session_event o (warning thread words) thread ≡ some (warned words))))
        × ((session_event o (interrupted_message thread turn) other ≡ none)
            × ((session_event o (failed_message thread turn words) other ≡ none)
                × (session_event o (warning thread words) other ≡ none)))
  unfolding session_event public_event notified by_method thread_id interrupted_message
      failed_message warning Status.event Goals.event
  own_messages_read other apart = (
    (rw (str_eq_refl thread) refl, (rw (str_eq_refl thread) refl, rw (str_eq_refl thread) refl)),
    (rw apart refl, (rw apart refl, rw apart refl)),
  )

abbrev accepts : ApprovalDecision → Bool
accepts accept_once = true
accepts cancel = false

abbrev value_in : Value → Result Fault Value → Value
value_in other (ok v) = v
value_in other (err e) = other

same_value : (a b : Value) → ◌≡◌ {A = Result Fault Value} (ok a) (ok b) → a ≡ b
same_value a b same = ap (value_in a) same

-- A message that asks, or resolves, passes whatever its thread.
open_gate : {A : Type 0} (a b : Bool) (x y : A) → (if a && (not true && b) then x else y) ≡ y
open_gate true b x y = refl
open_gate false b x y = refl

closed_gate : {A : Type 0} (a : Bool) (x y : A) → (if a && false then x else y) ≡ y
closed_gate true x y = refl
closed_gate false x y = refl

abbrev resolution : String → Value → Value
resolution thread v = object (
    field "method" (string "serverRequest/resolved")
      (field "params" (object (field "threadId" (string thread) (field "requestId" v end))) end))

-- The answer to a request.
pub record Answered (o : Outside) (id : Value) (d : ApprovalDecision) : Type 0 where
  pub answer : Value
  pub is_answer : approval_response o (o.to_string id) d ≡ ok answer
  pub names : get answer "id" ≡ some id
  pub decides : decision answer ≡ ok (accepts d)

-- The sessions are asked for an approval or for another interaction, under this id.
abbrev pub Asks : {T : Type 0} → String → Bool → Event T → Type 0
Asks id true (approval_requested shown words) = shown ≡ id
Asks id false (interaction_requested shown form) = shown ≡ id
Asks id _ _ = ⊥

abbrev pub asks_approval : String → Bool
asks_approval method =
    str_eq method "item/commandExecution/requestApproval"
    || str_eq method "item/fileChange/requestApproval"

requested-Asks :
    (o : Outside) (event id : Value) (method : String)
    → Asks (o.to_string id) (asks_approval method) (requested o event id method)
requested-Asks o event id method = by_kind (asks_approval method)
  where
    by_kind :
        (b : Bool)
        → Asks {T = o.ToolItem} (o.to_string id) b (
            if b
            then approval_requested (o.to_string id) (
                unwrap_or "Codex requests approval" (
                  as_str (
                    or_null
                      (or (get (at event "params") "command") (get (at event "params") "reason")))))
            else interaction_requested (o.to_string id) (project event))
    by_kind true = refl
    by_kind false = refl

-- A request of Codex, whose id the parser of JSON reads as it was written, reaches every session,
-- whichever its thread, under that id as text: as an approval where its method asks for one, of a
-- command or of a change of files, and as an interaction otherwise. What is decided of it goes back
-- under its id and is read as it was decided, and the message that the request is resolved also
-- reaches every session, under the id as text.
pub request-Answered :
    (o : Outside) (event id : Value) (method thread origin : String) (d : ApprovalDecision)
    → o.from_str (o.to_string id) ≡ some id
    → get event "id" ≡ some id
    → as_str (at event "method") ≡ some method
    → (session_event o event thread ≡ some (requested o event id method))
      × (Asks (o.to_string id) (asks_approval method) (requested o event id method))
      × (Answered o id d
          × ((message : Value)
              → resolved o origin (o.to_string id) ≡ ok message
              → session_event o message thread ≡ some (interaction_resolved (o.to_string id))))
unfolding session_event public_event notified by_method thread_id resolved approval_response
    decision Status.event Goals.event
request-Answered o event id method thread origin d reads has_id has_method = (
  rw (has_id, has_method)
      (open_gate (is_other o (thread_id event) thread)
        (not (is_text (at event "method") "serverRequest/resolved")) _ _),
  requested-Asks o event id method,
  (
    answers d,
    λ message same.
        subst (λ m. session_event o m thread ≡ some (interaction_resolved (o.to_string id)))
          (same_value _ _ (sym (ap (λ r. with_id o r (resolution origin)) reads) ∙ same))
          (closed_gate (not (str_eq origin thread)) _ _),
  ),
)
  where
    answers : (d : ApprovalDecision) → Answered o id d
    answers accept_once = record {
      answer =
          object
            (field "id" id (field "result" (object (field "decision" (string "accept") end)) end));
      is_answer = rw reads refl;
      names = refl;
      decides = refl;
    }
    answers cancel = record {
      answer =
          object
            (field "id" id (field "result" (object (field "decision" (string "cancel") end)) end));
      is_answer = rw reads refl;
      names = refl;
      decides = refl;
    }
