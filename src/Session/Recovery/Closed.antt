-- ===== src/Session/Recovery/Closed.antt =====
-- A session that is closed stays closed (crates/client/src/remote/recovery.rs).
use remote_codex.Base.{
  ℕ, ◌+◌, ◌≡◌, Bool, true, false, Option, none, some, List, [], ◌∷◌, Result, ok, err, String, arith,
}
use remote_codex.Session.Errors.{ClientError}
use remote_codex.Session.Recovery.{
  EnvironmentState, reconnecting, action_required, is_closed, Attempts, Recovery, publish,
  begin_rebuild, count_attempts, known_attempts, new_attempts, Act, publishes, begins_rebuild,
  configures, act, acts, begin_attempt, start_attempt, restart, after_sleep, park, park_asleep,
  sleep, gives_up, decide, counted, wait, wait_counted, Round, waits, others, round, rounds,
  recoverable, explain, retry_delay_ms,
}

abbrev pub IsClosed : Recovery → Type 0
IsClosed r = is_closed r.state ≡ true

publish-IsClosed : (s : EnvironmentState) (r : Recovery) → IsClosed r → IsClosed (publish s r)
unfolding publish
publish-IsClosed s r e = ground arith

act-IsClosed : (a : Act) (r : Recovery) → IsClosed r → IsClosed (act a r)
unfolding act begin_rebuild
act-IsClosed (publishes s) r e = publish-IsClosed s r e
act-IsClosed begins_rebuild r e = e
act-IsClosed (configures c) r e = e

acts-IsClosed : (l : List Act) (r : Recovery) → IsClosed r → IsClosed (acts l r)
unfolding acts
acts-IsClosed [] r e = e
acts-IsClosed (a ∷ rest) r e = acts-IsClosed rest (act a r) (act-IsClosed a r e)

begin_attempt-IsClosed :
    (o : Option Attempts) (r : Recovery) → IsClosed r → IsClosed (begin_attempt o r).1
unfolding begin_attempt
begin_attempt-IsClosed none r e = e
begin_attempt-IsClosed (some a) r e =
    publish-IsClosed (reconnecting (a.used + 1) a.limit 0)
      (record r { attempts = some (record a { used = a.used + 1 }) }) e

new_attempts-IsClosed :
    (c : Result ClientError ℕ) (r : Recovery) → IsClosed r → IsClosed (new_attempts c r).1
unfolding new_attempts
new_attempts-IsClosed (err f) r e = e
new_attempts-IsClosed (ok limit) r e = e

known_attempts-IsClosed :
    (o : Option Attempts) (r : Recovery) → IsClosed r → IsClosed (known_attempts o r).1
unfolding known_attempts
known_attempts-IsClosed (some a) r e = e
known_attempts-IsClosed none r e = new_attempts-IsClosed r.configured r e

restart-IsClosed :
    (c : Result ClientError Attempts × Recovery) → IsClosed c.1 → IsClosed (restart c).1
unfolding restart start_attempt
restart-IsClosed (err f, r) e = e
restart-IsClosed (ok a, r) e = begin_attempt-IsClosed r.attempts r e

after_sleep-IsClosed :
    (manual : Bool) (r : Recovery) → IsClosed r → IsClosed (after_sleep manual r).1
unfolding after_sleep start_attempt count_attempts
after_sleep-IsClosed false r e = begin_attempt-IsClosed r.attempts r e
after_sleep-IsClosed true r e =
    restart-IsClosed (known_attempts none (record r { attempts = none }))
      (known_attempts-IsClosed none (record r { attempts = none }) e)

park-IsClosed :
    (rebuilding : Bool) (told : String × String) (meanwhile : List Act) (woken : Bool)
    (r : Recovery)
    → IsClosed r
    → IsClosed (park rebuilding told meanwhile woken r).1
unfolding park park_asleep
park-IsClosed false told meanwhile woken r e = e
park-IsClosed true (code, message) meanwhile false r e =
    acts-IsClosed meanwhile (publish (action_required code message) r) (publish-IsClosed _ r e)
park-IsClosed true (code, message) meanwhile true r e =
    let shown = publish (action_required code message) r in
    after_sleep-IsClosed true (acts meanwhile shown)
      (acts-IsClosed meanwhile shown (publish-IsClosed (action_required code message) r e))

module _ (display : ClientError → String) (exhausted_message : ℕ → ClientError → String) where
  decide-IsClosed :
      (b : Bool) (e : ClientError) (meanwhile : List Act) (woken : Bool) (a : Attempts)
      (r : Recovery)
      → IsClosed r
      → IsClosed (decide display exhausted_message b e meanwhile woken a r).1
  unfolding decide sleep
  decide-IsClosed true e meanwhile woken a r c =
      park-IsClosed r.rebuilding (explain display exhausted_message (recoverable r e) a.limit e)
        meanwhile woken r c
  decide-IsClosed false e meanwhile woken a r c =
      let shown = publish (reconnecting (a.used + 1) a.limit retry_delay_ms) r in
      after_sleep-IsClosed woken (acts meanwhile shown) (
        acts-IsClosed meanwhile shown
          (publish-IsClosed (reconnecting (a.used + 1) a.limit retry_delay_ms) r c))

  wait_counted-IsClosed :
      (e : ClientError) (meanwhile : List Act) (woken : Bool)
      (c : Result ClientError Attempts × Recovery)
      → IsClosed c.1
      → IsClosed (wait_counted display exhausted_message e meanwhile woken c).1
  unfolding wait_counted counted
  wait_counted-IsClosed e meanwhile woken (err f, r) c = c
  wait_counted-IsClosed e meanwhile woken (ok a, r) c =
      decide-IsClosed (gives_up r a e) e meanwhile woken a r c

  round-IsClosed :
      (x : Round) (r : Recovery) → IsClosed r → IsClosed (round display exhausted_message x r)
  unfolding round wait count_attempts
  round-IsClosed (waits e meanwhile woken) r c =
      wait_counted-IsClosed e meanwhile woken (known_attempts r.attempts r)
        (known_attempts-IsClosed r.attempts r c)
  round-IsClosed (others l) r c = acts-IsClosed l r c

  -- Once a session is closed, no sequence of waits, of presses of Retry and of published states
  -- opens it again.
  pub rounds-IsClosed :
      (l : List Round) (r : Recovery) → IsClosed r → IsClosed (rounds display exhausted_message l r)
  unfolding rounds
  rounds-IsClosed [] r c = c
  rounds-IsClosed (x ∷ rest) r c =
      rounds-IsClosed rest (round display exhausted_message x r) (round-IsClosed x r c)
