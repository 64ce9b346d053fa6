-- ===== src/Session/Recovery/Tries.antt =====
-- What one wait of crates/client/src/remote/recovery.rs may do, and how many attempts one outage
-- has.
use mathlib.Core.Path.{subst}
use remote_codex.Base.{
  ℕ, ◌+◌, ◌≤◌, ◌≡◌, refl, sym, ap, ◌∙◌, Bool, true, false, not, ◌||◌, Option, none, some, List, [],
  ◌∷◌, ok, String, leb, any, length, arith,
}
use remote_codex.Session.Errors.{ClientError}
use remote_codex.Session.Recovery.{
  EnvironmentState, reconnecting, becomes_ready, Attempts, Recovery, publish, begin_rebuild,
  count_attempts, known_attempts, Act, publishes, begins_rebuild, configures, act, acts, Waited,
  attempts_again, fails, parked, again, begin_attempt, start_attempt, after_sleep, park,
  park_asleep, sleep, gives_up, decide, counted, wait, wait_counted, tries, recoverable, explain,
  retry_delay_ms,
}

abbrev pub act_ready : Act → Bool
act_ready (publishes s) = becomes_ready s
act_ready _ = false

publish_keeps :
    (s : EnvironmentState) (r : Recovery)
    → becomes_ready s ≡ false
    → (publish s r).attempts ≡ r.attempts
unfolding publish
publish_keeps s r e = ground arith

act_keeps : (a : Act) (r : Recovery) → act_ready a ≡ false → (act a r).attempts ≡ r.attempts
unfolding act begin_rebuild
act_keeps (publishes s) r e = publish_keeps s r e
act_keeps begins_rebuild r e = refl
act_keeps (configures c) r e = refl

acts_keep :
    (l : List Act) (r : Recovery) → any act_ready l ≡ false → (acts l r).attempts ≡ r.attempts
unfolding acts
acts_keep [] r e = refl
acts_keep (a ∷ rest) r e = acts_keep rest (act a r) (ground arith) ∙ act_keeps a r (ground arith)

-- The next attempt was started.
abbrev Started : Attempts → Waited × Recovery → Type 0
Started a (attempts_again, r) = r.attempts ≡ some (record a { used = a.used + 1 })
Started a (fails f, r) = Unit
Started a (parked, r) = Unit

begin_attempt-Started :
    (o : Option Attempts) (a : Attempts) (r : Recovery) → o ≡ some a → Started a (begin_attempt o r)
unfolding begin_attempt
begin_attempt-Started none a r e = tt
begin_attempt-Started (some b) a r e =
    publish_keeps (reconnecting (b.used + 1) b.limit 0)
      (record r { attempts = some (record b { used = b.used + 1 }) }) refl
    ∙ ap (λ o. elim o [ none ↦ none | some x ↦ some (record x { used = x.used + 1 }) ]) e

sleep-Started :
    (a : Attempts) (meanwhile : List Act) (r : Recovery)
    → any act_ready meanwhile ≡ false
    → r.attempts ≡ some a
    → Started a (sleep a meanwhile false r)
unfolding sleep after_sleep start_attempt
sleep-Started a meanwhile r quiet here =
    let shown = publish (reconnecting (a.used + 1) a.limit retry_delay_ms) r in
    begin_attempt-Started (acts meanwhile shown).attempts a (acts meanwhile shown)
      (acts_keep meanwhile shown quiet ∙ publish_keeps _ r refl ∙ here)

-- A wait that is not woken gives no new attempt where the code gives up.
abbrev no_attempt : Waited → Bool
no_attempt attempts_again = false
no_attempt _ = true

park-no_attempt :
    (rebuilding : Bool) (told : String × String) (meanwhile : List Act) (r : Recovery)
    → no_attempt (park rebuilding told meanwhile false r).0 ≡ true
unfolding park park_asleep
park-no_attempt false told meanwhile r = refl
park-no_attempt true told meanwhile r = refl

known_some : (r : Recovery) (a : Attempts) → r.attempts ≡ some a → count_attempts r ≡ (ok a, r)
unfolding count_attempts known_attempts
known_some r a e = rw e refl

park-Started :
    (a : Attempts) (rebuilding : Bool) (told : String × String) (meanwhile : List Act)
    (r : Recovery)
    → Started a (park rebuilding told meanwhile false r)
unfolding park park_asleep
park-Started a false told meanwhile r = tt
park-Started a true told meanwhile r = tt

spared :
    (b : Bool) (limit used : ℕ)
    → (not b || leb limit used) ≡ false
    → (b ≡ true) × (used + 1 ≤ limit)
spared b limit used e = ground arith

module _ (display : ClientError → String) (exhausted_message : ℕ → ClientError → String) where
  wait_known :
      (e : ClientError) (meanwhile : List Act) (woken : Bool) (a : Attempts) (r : Recovery)
      → r.attempts ≡ some a
      → wait display exhausted_message e meanwhile woken r
        ≡ decide display exhausted_message (gives_up r a e) e meanwhile woken a r
  unfolding wait wait_counted counted
  wait_known e meanwhile woken a r here =
      ap (wait_counted display exhausted_message e meanwhile woken) (known_some r a here)

  decide_within :
      (b : Bool) (e : ClientError) (meanwhile : List Act) (a : Attempts) (r : Recovery)
      → gives_up r a e ≡ b
      → (decide display exhausted_message b e meanwhile false a r).0 ≡ attempts_again
      → (recoverable r e ≡ true) × (a.used + 1 ≤ a.limit)
  unfolding gives_up decide
  decide_within true e meanwhile a r same answer = absurd (
      contradiction
        (park-no_attempt r.rebuilding
          (explain display exhausted_message (recoverable r e) a.limit e) meanwhile r)
        (ap no_attempt answer))
    where
      contradiction : {b : Bool} → b ≡ true → b ≡ false → ⊥
      contradiction p q = cc
  decide_within false e meanwhile a r same answer = spared (recoverable r e) a.limit a.used same

  -- A wait that nobody wakes starts an attempt only after an error that is worth it, and only while
  -- the limit of the outage has one left.
  wait_within :
      (e : ClientError) (meanwhile : List Act) (a : Attempts) (r : Recovery)
      → r.attempts ≡ some a
      → (wait display exhausted_message e meanwhile false r).0 ≡ attempts_again
      → (recoverable r e ≡ true) × (a.used + 1 ≤ a.limit)
  wait_within e meanwhile a r here answer =
      decide_within (gives_up r a e) e meanwhile a r refl
        (sym (ap (λ x. x.0) (wait_known e meanwhile false a r here)) ∙ answer)

  decide-Started :
      (b : Bool) (e : ClientError) (meanwhile : List Act) (a : Attempts) (r : Recovery)
      → any act_ready meanwhile ≡ false
      → r.attempts ≡ some a
      → Started a (decide display exhausted_message b e meanwhile false a r)
  unfolding decide
  decide-Started true e meanwhile a r quiet here =
      park-Started a r.rebuilding (explain display exhausted_message (recoverable r e) a.limit e)
        meanwhile r
  decide-Started false e meanwhile a r quiet here = sleep-Started a meanwhile r quiet here

  wait-Started :
      (e : ClientError) (meanwhile : List Act) (a : Attempts) (r : Recovery)
      → any act_ready meanwhile ≡ false
      → r.attempts ≡ some a
      → Started a (wait display exhausted_message e meanwhile false r)
  wait-Started e meanwhile a r quiet here =
      subst (Started a) (sym (wait_known e meanwhile false a r here))
        (decide-Started (gives_up r a e) e meanwhile a r quiet here)

  -- In an outage whose count is known, in which nobody presses Retry and nobody reports the
  -- environment ready, waits in a row can each start an attempt only while the limit has one left.
  pub tries_bounded :
      (l : List (ClientError × List Act)) (a : Attempts) (r r' : Recovery)
      → any (λ x. any act_ready x.1) l ≡ false
      → r.attempts ≡ some a
      → a.used ≤ a.limit
      → tries display exhausted_message l r ≡ some r'
      → a.used + length l ≤ a.limit
  unfolding tries
  tries_bounded [] a r r' quiet here fits done = omega arith
  tries_bounded ((e, meanwhile) ∷ rest) a r r' quiet here fits done =
      next (wait display exhausted_message e meanwhile false r) refl
        (wait-Started e meanwhile a r (ground arith) here) done
        (λ r1 started room more.
          tries_bounded rest (record a { used = a.used + 1 }) r1 r' (ground arith) started room
            more)
    where
      next :
          (x : Waited × Recovery)
          → wait display exhausted_message e meanwhile false r ≡ x
          → Started a x
          → again x.0 (tries display exhausted_message rest x.1) ≡ some r'
          → ((r1 : Recovery)
              → r1.attempts ≡ some (record a { used = a.used + 1 })
              → a.used + 1 ≤ a.limit
              → tries display exhausted_message rest r1 ≡ some r'
              → a.used + 1 + length rest ≤ a.limit)
          → a.used + length ((e, meanwhile) ∷ rest) ≤ a.limit
      next (attempts_again, r1) same started more later =
          let room = (wait_within e meanwhile a r here (ap (λ y. y.0) same)).1 in
          omega (arith, later r1 started room more)
      next (fails f, r1) same started more later = absurd (cc)
      next (parked, r1) same started more later = absurd (cc)
