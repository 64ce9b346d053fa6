-- ===== src/Session/Recovery/Tests.antt =====
-- crates/client/src/remote/recovery.rs on concrete outages.
use remote_codex.Base.{
  ℕ, ◌+◌, ◌≤◌, ◌≡◌, refl, String, true, false, some, List, [], ◌∷◌, length, ok, arith,
}
use remote_codex.Session.Errors.{ClientError, ssh, timeout}
use remote_codex.Session.Recovery.{
  closed, is_ready, reconnecting, Recovery, start, publish, begin_rebuild, count_attempts,
  known_attempts, new_attempts, Act, publishes, begins_rebuild, act, acts, attempts_again,
  begin_attempt, start_attempt, restart, after_sleep, park, park_asleep, sleep, gives_up, decide,
  counted, wait, wait_counted, Round, waits, others, round, rounds, tries, recoverable,
}
use remote_codex.Session.Recovery.Budget.{attempts_within_limit}
use remote_codex.Session.Recovery.Tries.{tries_bounded}
use remote_codex.Session.Recovery.Closed.{IsClosed, rounds-IsClosed}

abbrev show : ClientError → String
show e = "error"

abbrev exhausted : ℕ → ClientError → String
exhausted limit e = "exhausted"

-- Two attempts, the budget used up, and Retry pressed.
abbrev outage : List Round
outage =
    waits (ssh 255) [] false
    ∷ waits timeout [] false
    ∷ others (begins_rebuild ∷ [])
    ∷ waits timeout [] true
    ∷ []

outage_attempts :
    (rounds show exhausted outage (start (ok 2))).attempts ≡ some (record { used = 1; limit = 2 })
unfolding rounds round wait wait_counted counted decide gives_up recoverable sleep park park_asleep
    after_sleep restart start_attempt begin_attempt count_attempts known_attempts new_attempts acts
    act publish begin_rebuild
outage_attempts = refl

attempts_within_limit_example : 1 ≤ 2
attempts_within_limit_example =
    attempts_within_limit show exhausted (ok 2) outage (record { used = 1; limit = 2 }) refl refl
      outage_attempts

abbrev counting : Recovery
counting = record (start (ok 3)) { attempts = some (record { used = 1; limit = 3 }) }

abbrev two_failures : List (ClientError × List Act)
two_failures = (ssh 255, []) ∷ (timeout, begins_rebuild ∷ []) ∷ []

abbrev used_up : Recovery
used_up = record {
  state = reconnecting 3 3 0;
  attempts = some (record { used = 3; limit = 3 });
  rebuilding = true;
  configured = ok 3;
}

two_tries : tries show exhausted two_failures counting ≡ some used_up
unfolding tries wait wait_counted counted decide gives_up recoverable sleep park park_asleep
    after_sleep restart start_attempt begin_attempt count_attempts known_attempts new_attempts acts
    act publish begin_rebuild
two_tries = refl

tries_bounded_example : 1 + length two_failures ≤ 3
tries_bounded_example =
    tries_bounded show exhausted two_failures (record { used = 1; limit = 3 }) counting used_up refl
      refl (ground arith) two_tries

wait_answers : (wait show exhausted timeout [] false counting).0 ≡ attempts_again
unfolding wait wait_counted counted decide gives_up recoverable sleep park park_asleep after_sleep
    restart start_attempt begin_attempt count_attempts known_attempts new_attempts acts act publish
    begin_rebuild
wait_answers = refl

rounds-IsClosed_example : IsClosed (
    rounds show exhausted
      (others (publishes is_ready ∷ []) ∷ waits timeout (publishes is_ready ∷ []) true ∷ [])
      (record (start (ok 3)) { state = closed }))
rounds-IsClosed_example =
    rounds-IsClosed show exhausted
      (others (publishes is_ready ∷ []) ∷ waits timeout (publishes is_ready ∷ []) true ∷ [])
      (record (start (ok 3)) { state = closed }) refl
