-- ===== src/Session/Recovery.antt =====
-- crates/client/src/remote/recovery.rs: the one budget of reconnection attempts of a session, and
-- the state that its frontends see. The configuration store is a field, which others may change.
-- What others do while `wait` sleeps is an argument: a list of their acts in order, and whether
-- `retry` then woke the sleep. Locks are never poisoned. The text of the error in a message is
-- the argument `display`, with the text for an exhausted budget.
pub mod Budget
pub mod Tries
pub mod Closed
mod Tests
use text.Mathlib.Text.{◌==◌ as str_eq}
use remote_codex.Base.{
  ℕ, ◌+◌, String, Bool, true, false, not, ◌&&◌, ◌||◌, Option, none, some, List, [], ◌∷◌, Result, ok,
  err, if◌then◌else◌, ltb, leb, ◌==◌, any,
}
use remote_codex.Session.Errors.{
  IoKind, other_kind, ClientError, io_error, timeout, remote_response, ssh, remote_fault, code_of,
  fault,
}

abbrev pub retry_delay_ms : ℕ
retry_delay_ms = 5000

pub data EnvironmentState : Type 0 where
  is_ready closed : EnvironmentState
  reconnecting : (attempt max_attempts retry_in_ms : ℕ) → EnvironmentState
  recovering : (reason : String) → EnvironmentState
  action_required : (code message : String) → EnvironmentState

abbrev pub state_eq : EnvironmentState → EnvironmentState → Bool
state_eq is_ready is_ready = true
state_eq closed closed = true
state_eq (reconnecting a m r) (reconnecting a' m' r') = a == a' && (m == m' && r == r')
state_eq (recovering r) (recovering r') = str_eq r r'
state_eq (action_required c m) (action_required c' m') = str_eq c c' && str_eq m m'
state_eq _ _ = false

abbrev pub is_closed : EnvironmentState → Bool
is_closed closed = true
is_closed _ = false

abbrev pub becomes_ready : EnvironmentState → Bool
becomes_ready is_ready = true
becomes_ready _ = false

pub record Attempts : Type 0 where
  pub used : ℕ
  pub limit : ℕ

pub record Recovery : Type 0 where
  pub state : EnvironmentState
  pub attempts : Option Attempts
  pub rebuilding : Bool
  -- what the store answers for `reconnect.max_attempts`
  pub configured : Result ClientError ℕ

abbrev pub start : Result ClientError ℕ → Recovery
start configured = record {
  state = is_ready;
  attempts = none;
  rebuilding = false;
  configured = configured;
}

pub publish : EnvironmentState → Recovery → Recovery
publish s r =
    if is_closed r.state || state_eq r.state s
    then r
    else if becomes_ready s
    then record r { attempts = none; rebuilding = false; state = s }
    else record r { state = s }

pub begin_rebuild : Recovery → Recovery
begin_rebuild r = record r { rebuilding = true }

pub ready : EnvironmentState → Result ClientError (Unit {0})
ready is_ready = ok tt
ready (action_required code message) = err (fault code message)
ready _ = err (
    fault "ENVIRONMENT_NOT_READY"
      "execution environment is reconnecting or requires attention; no new turn was submitted")

abbrev broken : IoKind → Bool
broken other_kind = false
broken _ = true

abbrev one_of : List String → String → Bool
one_of names code = any (str_eq code) names

unfoldable pub transient : ClientError → Bool
transient (ssh status) = status == 255
transient timeout = true
transient remote_response = true
transient (io_error kind text) = broken kind
transient (remote_fault code message unknown) =
    one_of ("SERVICE_UPDATE_BUSY" ∷ "EXECUTION_BUSY" ∷ "CAPACITY_EXCEEDED" ∷ []) code
transient _ = false

unfoldable pub recoverable : Recovery → ClientError → Bool
unfolding transient
recoverable r e =
    transient e
    || (r.rebuilding
        && one_of
            ("INVALID_REMOTE_RESPONSE" ∷ "CODEX_RESPONSE_TIMEOUT" ∷ "CODEX_CHANGED"
              ∷ "RUNTIME_UNAVAILABLE" ∷ "RECOVERY_RETRIES_EXHAUSTED"
              ∷ "RECOVERY_SETTINGS_UNCONFIRMED" ∷ [])
            (code_of e))

-- `attempts`: those of this outage, or new ones under the configured limit.
pub new_attempts : Result ClientError ℕ → Recovery → Result ClientError Attempts × Recovery
new_attempts (err e) r = (err e, r)
new_attempts (ok limit) r = (
  ok (record { used = 0; limit = limit }),
  record r { attempts = some (record { used = 0; limit = limit }) },
)

pub known_attempts : Option Attempts → Recovery → Result ClientError Attempts × Recovery
unfolding new_attempts
known_attempts (some a) r = (ok a, r)
known_attempts none r = new_attempts r.configured r

pub count_attempts : Recovery → Result ClientError Attempts × Recovery
unfolding known_attempts
count_attempts r = known_attempts r.attempts r

-- What others do meanwhile.
pub data Act : Type 0 where
  publishes : EnvironmentState → Act
  begins_rebuild : Act
  configures : Result ClientError ℕ → Act

pub act : Act → Recovery → Recovery
unfolding publish begin_rebuild
act (publishes s) r = publish s r
act begins_rebuild r = begin_rebuild r
act (configures c) r = record r { configured = c }

pub acts : List Act → Recovery → Recovery
unfolding act
acts [] r = r
acts (a ∷ rest) r = acts rest (act a r)

-- How a wait ends: the next attempt, an error for the caller, or not yet.
pub data Waited : Type 0 where
  attempts_again : Waited
  fails : ClientError → Waited
  parked : Waited

-- The attempt is counted and announced.
pub begin_attempt : Option Attempts → Recovery → Waited × Recovery
unfolding publish
begin_attempt none r = (fails remote_response, r)
begin_attempt (some a) r = (
  attempts_again,
  publish (reconnecting (a.used + 1) a.limit 0)
      (record r { attempts = some (record a { used = a.used + 1 }) }),
)

pub start_attempt : Recovery → Waited × Recovery
unfolding begin_attempt
start_attempt r = begin_attempt r.attempts r

pub restart : Result ClientError Attempts × Recovery → Waited × Recovery
unfolding start_attempt
restart (err e, r) = (fails e, r)
restart (ok a, r) = start_attempt r

pub after_sleep : (manual : Bool) → Recovery → Waited × Recovery
unfolding count_attempts start_attempt restart
after_sleep false r = start_attempt r
after_sleep true r = restart (count_attempts (record r { attempts = none }))

abbrev is_exhausted : ClientError → Bool
is_exhausted (remote_fault code message unknown) = str_eq code "RECOVERY_RETRIES_EXHAUSTED"
is_exhausted _ = false

abbrev message_of : (display : ClientError → String) → ClientError → String
message_of display (remote_fault code message unknown) = message
message_of display e = display e

-- The state asks for an action, and only `retry` ends the wait.
pub park_asleep : (woken : Bool) → Recovery → Waited × Recovery
unfolding after_sleep
park_asleep false r = (parked, r)
park_asleep true r = after_sleep true r

-- The transport gives its error back to the owner of the session, which rebuilds and may wait.
pub park :
    (rebuilding : Bool) → String × String → List Act → (woken : Bool) → Recovery → Waited × Recovery
unfolding publish acts park_asleep
park false (code, message) meanwhile woken r = (fails (fault code message), r)
park true (code, message) meanwhile woken r =
    park_asleep woken (acts meanwhile (publish (action_required code message) r))

pub sleep : Attempts → List Act → (woken : Bool) → Recovery → Waited × Recovery
unfolding publish acts after_sleep
sleep a meanwhile woken r =
    after_sleep woken
      (acts meanwhile (publish (reconnecting (a.used + 1) a.limit retry_delay_ms) r))

-- The budget is used up or the error is not one to try again after.
unfoldable pub gives_up : Recovery → Attempts → ClientError → Bool
unfolding recoverable
gives_up r a e = not (recoverable r e) || leb a.limit a.used

abbrev again : Waited → Option Recovery → Option Recovery
again attempts_again next = next
again (fails f) next = none
again parked next = none

-- A sequence of outages, and of what others do between the waits.
pub data Round : Type 0 where
  waits : ClientError → List Act → (woken : Bool) → Round
  others : List Act → Round

module _ (display : ClientError → String) (exhausted_message : ℕ → ClientError → String) where
  -- The code and the message of the state that asks for an action.
  abbrev pub explain : (can_recover : Bool) → (limit : ℕ) → ClientError → String × String
  explain can_recover limit e =
      if is_exhausted e
      then ("RECOVERY_RETRIES_EXHAUSTED", message_of display e)
      else if can_recover
      then ("RECOVERY_RETRIES_EXHAUSTED", exhausted_message limit e)
      else (code_of e, display e)

  pub decide :
      (gives_up : Bool)
      → ClientError
      → List Act
      → (woken : Bool) → Attempts
      → Recovery
      → Waited × Recovery
  unfolding park sleep recoverable
  decide true e meanwhile woken a r =
      park r.rebuilding (explain (recoverable r e) a.limit e) meanwhile woken r
  decide false e meanwhile woken a r = sleep a meanwhile woken r

  pub counted : ClientError → List Act → (woken : Bool) → Attempts → Recovery → Waited × Recovery
  unfolding decide gives_up
  counted e meanwhile woken a r = decide (gives_up r a e) e meanwhile woken a r

  pub wait_counted :
      ClientError → List Act → Bool → Result ClientError Attempts × Recovery → Waited × Recovery
  unfolding counted
  wait_counted e meanwhile woken (err f, r) = (fails f, r)
  wait_counted e meanwhile woken (ok a, r) = counted e meanwhile woken a r

  pub wait : ClientError → List Act → (woken : Bool) → Recovery → Waited × Recovery
  unfolding count_attempts wait_counted
  wait e meanwhile woken r = wait_counted e meanwhile woken (count_attempts r)

  pub round : Round → Recovery → Recovery
  unfolding wait acts
  round (waits e meanwhile woken) r = (wait e meanwhile woken r).1
  round (others l) r = acts l r

  pub rounds : List Round → Recovery → Recovery
  unfolding round
  rounds [] r = r
  rounds (x ∷ rest) r = rounds rest (round x r)

  -- Waits that are not woken, each after the failure of the attempt before.
  pub tries : List (ClientError × List Act) → Recovery → Option Recovery
  unfolding wait
  tries [] r = some r
  tries ((e, meanwhile) ∷ rest) r =
      again (wait e meanwhile false r).0 (tries rest (wait e meanwhile false r).1)
