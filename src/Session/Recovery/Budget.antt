-- ===== src/Session/Recovery/Budget.antt =====
-- The budget of crates/client/src/remote/recovery.rs over any sequence of waits.
use remote_codex.Base.{
  ℕ, ◌+◌, ◌≤◌, ◌≡◌, refl, sym, ap, ◌∙◌, ◌⊎◌, inl, inr, Bool, true, false, ◌&&◌, Option, none, some,
  List, [], ◌∷◌, Result, ok, err, String, leb, all, arith,
}
use remote_codex.Session.Errors.{ClientError}
use remote_codex.Session.Recovery.{
  EnvironmentState, reconnecting, action_required, is_closed, Attempts, Recovery, start, publish,
  begin_rebuild, count_attempts, Act, publishes, begins_rebuild, configures, act, acts,
  start_attempt, begin_attempt, restart, new_attempts, known_attempts, wait_counted, park_asleep,
  gives_up, Round, waits, others, round, rounds, decide, retry_delay_ms, after_sleep, park, sleep,
  counted, wait,
}

abbrev within : Option Attempts → Bool
within none = true
within (some a) = leb a.used a.limit

-- The store gives no limit of zero (`ConfigValue` parses none).
abbrev pub positive : Result ClientError ℕ → Bool
positive (ok limit) = leb 1 limit
positive (err e) = true

abbrev sound : Recovery → Bool
sound r = within r.attempts && positive r.configured

abbrev pub act_positive : Act → Bool
act_positive (configures c) = positive c
act_positive _ = true

publish_attempts :
    (s : EnvironmentState) (r : Recovery)
    → ((publish s r).attempts ≡ none) ⊎ ((publish s r).attempts ≡ r.attempts)
unfolding publish
publish_attempts s r = ground arith

publish_configured : (s : EnvironmentState) (r : Recovery) → (publish s r).configured ≡ r.configured
unfolding publish
publish_configured s r = ground arith

publish-IsClosed :
    (s : EnvironmentState) (r : Recovery) → is_closed r.state ≡ true → publish s r ≡ r
unfolding publish
publish-IsClosed s r e = rw e refl

publish-sound : (s : EnvironmentState) (r : Recovery) → sound r ≡ true → sound (publish s r) ≡ true
unfolding publish
publish-sound s r e = ground arith

act-sound :
    (a : Act) (r : Recovery) → act_positive a ≡ true → sound r ≡ true → sound (act a r) ≡ true
unfolding act begin_rebuild
act-sound (publishes s) r good e = publish-sound s r e
act-sound begins_rebuild r good e = e
act-sound (configures c) r good e = ground arith

act_attempts :
    (a : Act) (r : Recovery) → ((act a r).attempts ≡ none) ⊎ ((act a r).attempts ≡ r.attempts)
unfolding act begin_rebuild
act_attempts (publishes s) r = publish_attempts s r
act_attempts begins_rebuild r = inr refl
act_attempts (configures c) r = inr refl

acts-sound :
    (l : List Act) (r : Recovery)
    → all act_positive l ≡ true
    → sound r ≡ true
    → sound (acts l r) ≡ true
unfolding acts
acts-sound [] r good e = e
acts-sound (a ∷ rest) r good e =
    acts-sound rest (act a r) (ground arith) (act-sound a r (ground arith) e)

acts_attempts :
    (l : List Act) (r : Recovery)
    → ((acts l r).attempts ≡ none) ⊎ ((acts l r).attempts ≡ r.attempts)
unfolding acts
acts_attempts [] r = inr refl
acts_attempts (a ∷ rest) r = join (acts_attempts rest (act a r)) (act_attempts a r)
  where
    join :
        ((acts rest (act a r)).attempts ≡ none)
          ⊎ ((acts rest (act a r)).attempts ≡ (act a r).attempts)
        → ((act a r).attempts ≡ none) ⊎ ((act a r).attempts ≡ r.attempts)
        → ((acts rest (act a r)).attempts ≡ none) ⊎ ((acts rest (act a r)).attempts ≡ r.attempts)
    join (inl gone) q = inl gone
    join (inr same) (inl gone) = inl (same ∙ gone)
    join (inr same) (inr kept) = inr (same ∙ kept)

-- There is an attempt left.
abbrev spare : Option Attempts → Bool
spare none = true
spare (some a) = leb (a.used + 1) a.limit

begin_attempt-sound :
    (o : Option Attempts) (r : Recovery)
    → spare o ≡ true
    → sound r ≡ true
    → sound (begin_attempt o r).1 ≡ true
unfolding begin_attempt
begin_attempt-sound none r room good = good
begin_attempt-sound (some a) r room good =
    publish-sound _ (record r { attempts = some (record a { used = a.used + 1 }) }) (ground arith)

-- The attempts that were counted are those of the state, and no more than the limit.
abbrev Counts : Result ClientError Attempts × Recovery → Type 0
Counts (err e, r) = sound r ≡ true
Counts (ok a, r) = (sound r ≡ true) × (r.attempts ≡ some a)

new_attempts-Counts :
    (c : Result ClientError ℕ) (r : Recovery)
    → r.configured ≡ c
    → sound r ≡ true
    → Counts (new_attempts c r)
unfolding new_attempts
new_attempts-Counts (err e) r same good = good
new_attempts-Counts (ok limit) r same good = (ground arith, refl)

count_attempts-Counts : (r : Recovery) → sound r ≡ true → Counts (count_attempts r)
unfolding count_attempts
count_attempts-Counts r good = by_attempts r.attempts refl
  where
    by_attempts : (o : Option Attempts) → r.attempts ≡ o → Counts (known_attempts o r)
    by_attempts (some a) e = (good, e)
    by_attempts none e = new_attempts-Counts r.configured r refl good

restart-sound :
    (c : Result ClientError ℕ) (r : Recovery)
    → r.configured ≡ c
    → sound r ≡ true
    → sound (restart (new_attempts c r)).1 ≡ true
unfolding restart new_attempts start_attempt
restart-sound (err e) r same good = good
restart-sound (ok limit) r same good =
    begin_attempt-sound (some (record { used = 0; limit = limit }))
      (record r { attempts = some (record { used = 0; limit = limit }) }) (ground arith)
      (ground arith)

after_sleep-sound :
    (manual : Bool) (r : Recovery)
    → spare r.attempts ≡ true
    → sound r ≡ true
    → sound (after_sleep manual r).1 ≡ true
unfolding after_sleep start_attempt count_attempts known_attempts
after_sleep-sound false r room good = begin_attempt-sound r.attempts r room good
after_sleep-sound true r room good =
    restart-sound r.configured (record r { attempts = none }) refl (ground arith)

manual_sound : (r : Recovery) → sound r ≡ true → sound (after_sleep true r).1 ≡ true
unfolding after_sleep start_attempt count_attempts known_attempts
manual_sound r good = restart-sound r.configured (record r { attempts = none }) refl (ground arith)

either_spare : (o o' : Option Attempts) → (o ≡ none) ⊎ (o ≡ o') → spare o' ≡ true → spare o ≡ true
either_spare o o' (inl gone) room = ap spare gone
either_spare o o' (inr same) room = ap spare same ∙ room

room_left :
    (r : Recovery) (a : Attempts) (e : ClientError) → gives_up r a e ≡ false → spare (some a) ≡ true
unfolding gives_up
room_left r a e left = ground arith

park-sound :
    (rebuilding : Bool) (told : String × String) (meanwhile : List Act) (woken : Bool)
    (r : Recovery)
    → all act_positive meanwhile ≡ true
    → sound r ≡ true
    → sound (park rebuilding told meanwhile woken r).1 ≡ true
unfolding park park_asleep
park-sound false (code, message) meanwhile woken r good s = s
park-sound true (code, message) meanwhile false r good s =
    let shown = publish (action_required code message) r in
    acts-sound meanwhile shown good (publish-sound (action_required code message) r s)
park-sound true (code, message) meanwhile true r good s =
    let shown = publish (action_required code message) r in
    manual_sound (acts meanwhile shown)
      (acts-sound meanwhile shown good (publish-sound (action_required code message) r s))

sleep-sound :
    (a : Attempts) (meanwhile : List Act) (woken : Bool) (r : Recovery)
    → all act_positive meanwhile ≡ true
    → sound r ≡ true
    → spare r.attempts ≡ true
    → sound (sleep a meanwhile woken r).1 ≡ true
unfolding sleep
sleep-sound a meanwhile woken r good s room =
    let wanted = reconnecting (a.used + 1) a.limit retry_delay_ms in
    let shown = publish wanted r in
    after_sleep-sound woken (acts meanwhile shown)
      (either_spare _ _ (acts_attempts meanwhile shown)
        (either_spare _ _ (publish_attempts wanted r) room))
      (acts-sound meanwhile shown good (publish-sound wanted r s))

abbrev pub round_positive : Round → Bool
round_positive (waits e meanwhile woken) = all act_positive meanwhile
round_positive (others l) = all act_positive l

left_true : (a b : Bool) → (a && b) ≡ true → a ≡ true
left_true a b e = ground arith

used_up : (a : Attempts) → within (some a) ≡ true → a.used ≤ a.limit
used_up a e = ground arith

module _ (display : ClientError → String) (exhausted_message : ℕ → ClientError → String) where
  counted-sound :
      (e : ClientError) (meanwhile : List Act) (woken : Bool) (a : Attempts) (r : Recovery)
      → all act_positive meanwhile ≡ true
      → sound r ≡ true
      → r.attempts ≡ some a
      → sound (counted display exhausted_message e meanwhile woken a r).1 ≡ true
  unfolding counted decide
  counted-sound e meanwhile woken a r good s here = decided (gives_up r a e) refl
    where
      decided :
          (b : Bool)
          → gives_up r a e ≡ b
          → sound (decide display exhausted_message b e meanwhile woken a r).1 ≡ true
      decided true same = park-sound r.rebuilding _ meanwhile woken r good s
      decided false same =
          sleep-sound a meanwhile woken r good s (ap spare here ∙ room_left r a e same)

  wait_counted-sound :
      (e : ClientError) (meanwhile : List Act) (woken : Bool)
      (c : Result ClientError Attempts × Recovery)
      → all act_positive meanwhile ≡ true
      → Counts c
      → sound (wait_counted display exhausted_message e meanwhile woken c).1 ≡ true
  unfolding wait_counted
  wait_counted-sound e meanwhile woken (err f, r) good s = s
  wait_counted-sound e meanwhile woken (ok a, r) good (s, here) =
      counted-sound e meanwhile woken a r good s here

  wait-sound :
      (e : ClientError) (meanwhile : List Act) (woken : Bool) (r : Recovery)
      → all act_positive meanwhile ≡ true
      → sound r ≡ true
      → sound (wait display exhausted_message e meanwhile woken r).1 ≡ true
  unfolding wait
  wait-sound e meanwhile woken r good s =
      wait_counted-sound e meanwhile woken (count_attempts r) good (count_attempts-Counts r s)

  round-sound :
      (x : Round) (r : Recovery)
      → round_positive x ≡ true
      → sound r ≡ true
      → sound (round display exhausted_message x r) ≡ true
  unfolding round
  round-sound (waits e meanwhile woken) r good s = wait-sound e meanwhile woken r good s
  round-sound (others l) r good s = acts-sound l r good s

  rounds-sound :
      (l : List Round) (r : Recovery)
      → all round_positive l ≡ true
      → sound r ≡ true
      → sound (rounds display exhausted_message l r) ≡ true
  unfolding rounds
  rounds-sound [] r good s = s
  rounds-sound (x ∷ rest) r good s =
      rounds-sound rest (round display exhausted_message x r) (ground arith)
        (round-sound x r (ground arith) s)

  -- If the store never gives a limit of zero, then after any sequence of waits, of presses of Retry
  -- and of what others do, no more attempts are used than the limit of the outage.
  pub attempts_within_limit :
      (configured : Result ClientError ℕ) (l : List Round) (a : Attempts)
      → positive configured ≡ true
      → all round_positive l ≡ true
      → (rounds display exhausted_message l (start configured)).attempts ≡ some a
      → a.used ≤ a.limit
  attempts_within_limit configured l a good all_good here =
      used_up a
        (ap within (sym here) ∙ left_true _ _ (rounds-sound l (start configured) all_good good))
