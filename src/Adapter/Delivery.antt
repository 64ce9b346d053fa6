-- ===== src/Adapter/Delivery.antt =====
-- `Connection::send` and `enqueue` of crates/codex-adapter/src/gateway/connection.rs: one frontend
-- is sent snapshots and live events over one connection. The text of a JSON value is an argument.
pub mod Once
use package.text.Mathlib.Text.{◌==◌ as str_eq}
use remote_codex.Base.{
  ℕ, String, Bool, true, false, not, ◌&&◌, ◌||◌, Option, none, some, List, [], ◌∷◌, if◌then◌else◌,
  any, ltb, is_some, ◌+◌, ◌-◌,
}
use remote_codex.Session.Errors.{Fault}
use remote_codex.Json.{Value, get, at, is_text}
use remote_codex.Server.{refusal}

abbrev pub output_capacity : ℕ
output_capacity = 256

-- What was put into the queue, newest first, and how many of these the writer has still to write.
pub record Connection : Type 0 where
  pub outgoing : List Value
  pub waiting : ℕ
  pub closed : Bool
  pub failure : Option Fault
  pub delivered_requests : List String

abbrev pub full : Fault
full = refusal "TRANSPORT" "native frontend output queue is full"

abbrev pub or_insert : Option Fault → Fault → Fault
or_insert none e = e
or_insert (some old) e = old

unfoldable pub enqueue : Value → Connection → Connection
enqueue value c =
    if c.closed
    then c
    else if ltb c.waiting output_capacity
    then record c { outgoing = value ∷ c.outgoing; waiting = c.waiting + 1 }
    else record c { failure = some (or_insert c.failure full) }

abbrev pub holds : String → List String → Bool
holds id ids = any (λ other. str_eq other id) ids

abbrev pub without : String → List String → List String
without id [] = []
without id (other ∷ ids) =
    let rest = without id ids in if str_eq other id then rest else other ∷ rest

module _ (encode : Value → String) where
  -- A request of the server has a method and an id.
  abbrev pub is_request : Value → Bool
  is_request value = is_some (get value "method") && is_some (get value "id")

  abbrev pub is_resolved : Value → Bool
  is_resolved value =
      is_text (at value "method") "serverRequest/resolved"
      && is_some (get (at value "params") "requestId")

  abbrev pub request_id : Value → String
  request_id value = encode (at value "id")

  abbrev pub resolved_id : Value → String
  resolved_id value = encode (at (at value "params") "requestId")

  abbrev pub inserted : Value → List String → List String
  inserted value ids = if is_request value then request_id value ∷ ids else ids

  abbrev pub marked : Value → List String → List String
  marked value ids =
      if is_resolved value
      then without (resolved_id value) (inserted value ids)
      else inserted value ids

  abbrev pub is_delivered : Value → List String → Bool
  is_delivered value ids = is_request value && holds (request_id value) ids

  unfoldable pub send : Value → Connection → Connection
  unfolding enqueue
  send value c =
      if is_delivered value c.delivered_requests
      then c
      else enqueue value (record c { delivered_requests = marked value c.delivered_requests })

-- A message is sent, the writer has written one, or it has ended.
pub data Step : Type 0 where
  sends : Value → Step
  writes ends : Step

unfoldable pub step : (Value → String) → Step → Connection → Connection
unfolding send
step encode (sends value) c = send encode value c
step encode writes c = record c { waiting = c.waiting - 1 }
step encode ends c = record c { closed = true }

unfoldable pub steps : (Value → String) → List Step → Connection → Connection
unfolding step
steps encode [] c = c
steps encode (s ∷ rest) c = steps encode rest (step encode s c)

-- `Connection::accept`
abbrev pub accepted : Connection
accepted = record {
  outgoing = [];
  waiting = 0;
  closed = false;
  failure = none;
  delivered_requests = [];
}
