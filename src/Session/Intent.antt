-- ===== src/Session/Intent.antt =====
-- crates/client/src/local/intent.rs: what a session was doing when its connection was lost, and
-- whether that is to be continued. The sender of `pending_message` is its channel's value: whether
-- the message that waits for the connection was cancelled. The time and the fresh identifiers are
-- arguments.
pub mod Once
mod Tests
use text.Mathlib.Text.{◌==◌ as str_eq}
use remote_codex.Base.{
  ℕ, ◌+◌, ◌%◌, ◌^◌, String, Bool, true, false, not, ◌&&◌, Option, none, some, List, [], ◌∷◌,
  if◌then◌else◌, is_some,
}
use remote_codex.Session.{
  Goal, Plan, TurnTiming, TurnState, SessionStatus, default_status, TurnOutcome, completed,
  interrupted, failed, SessionEvent, goal_changed, plan_changed, activity_changed, usage_changed,
  rate_limits_changed, turn_started, turn_completed, other_event,
}

pub record Intent : Type 0 where
  pub active : Option String
  pub status : SessionStatus
  pub current_turn : Option TurnState
  pub limits_revision : ℕ
  pub completed : Option String
  pub goal : Option Goal
  pub goal_revision : ℕ
  pub plan : Option Plan
  pub resume_goal : Option String
  pub interrupted : Option String
  pub episode : Option String
  pub settings : String
  pub pending_message : Option Bool
  pub resend_after_recovery : Bool
  pub cancelled : Option String

-- `u64::wrapping_add(1)`
abbrev next_revision : ℕ → ℕ
next_revision n = (n + 1) % 2 ^ 64

-- `o.as_deref() == Some(t)`
abbrev pub holds_text : Option String → String → Bool
holds_text none t = false
holds_text (some x) t = str_eq x t

abbrev outcome_status : TurnOutcome → String
outcome_status completed = "completed"
outcome_status interrupted = "interrupted"
outcome_status (failed message) = "failed"

abbrev is_success : TurnOutcome → Bool
is_success completed = true
is_success _ = false

abbrev or_else : Option ℕ → Option ℕ → Option ℕ
or_else (some a) b = some a
or_else none b = b

abbrev kept_timing : Option TurnState → String → TurnTiming → TurnTiming
kept_timing none id timing = timing
kept_timing (some previous) id timing =
    if str_eq previous.id id
    then record timing { started_at = or_else timing.started_at previous.timing.started_at }
    else timing

-- Another turn is current.
abbrev is_stale : Option TurnState → String → Bool
is_stale none id = false
is_stale (some current) id = not (str_eq current.id id)

abbrev finish_current : String → TurnTiming → TurnOutcome → Intent → Intent
finish_current id timing outcome i = if is_stale i.current_turn id then i else record i {
  current_turn = some (record {
    id = id;
    status = outcome_status outcome;
    timing = kept_timing i.current_turn id timing;
  });
}

pub observe : (now : ℕ) → SessionEvent → Intent → Intent
observe now (goal_changed goal) i = record i {
  goal = goal;
  goal_revision = next_revision i.goal_revision;
}
observe now (plan_changed plan) i = record i { plan = some plan }
observe now (activity_changed activity flags) i = record i {
  status = record i.status { activity = activity; active_flags = flags };
}
observe now (usage_changed usage) i = record i { status = record i.status { usage = some usage } }
observe now (rate_limits_changed limits) i = record i {
  status = record i.status { limits = limits; limits_error = none; limits_updated_at = some now };
  limits_revision = next_revision i.limits_revision;
}
observe now (turn_started id timing) i = record i {
  active = some id;
  plan = none;
  current_turn = some (record { id = id; status = "inProgress"; timing = timing });
}
observe now (turn_completed id timing outcome) i = finish_current id timing outcome (record i {
  completed = some id;
  active = if holds_text i.active id then none else i.active;
  interrupted = if is_success outcome then none else i.interrupted;
})
observe now other_event i = i

abbrev pub with_status : SessionStatus → Intent
with_status status = record {
  active = none;
  status = status;
  current_turn = none;
  limits_revision = 0;
  completed = none;
  goal = none;
  goal_revision = 0;
  plan = none;
  resume_goal = none;
  interrupted = none;
  episode = none;
  settings = "null";
  pending_message = none;
  resend_after_recovery = false;
  cancelled = none;
}

-- `filter(|turn| self.cancelled.as_ref() != Some(turn))`
abbrev not_cancelled : Option String → Option String → Option String
not_cancelled cancelled none = none
not_cancelled cancelled (some turn) = if holds_text cancelled turn then none else some turn

pub disconnect : (fresh : String) → Intent → Intent
disconnect fresh i =
    if is_some i.episode
    then i
    else record i { episode = some fresh; interrupted = not_cancelled i.cancelled i.active }

pub cancel : String → Intent → Intent
cancel turn i = record i {
  resume_goal = none;
  pending_message = elim i.pending_message [ none ↦ none | some _ ↦ some true ];
  cancelled = some turn;
  interrupted = if holds_text i.interrupted turn then none else i.interrupted;
}

pub is_cancelled : Intent → String → Bool
is_cancelled i turn = holds_text i.cancelled turn

abbrev both : Option String → Option String → Option (String × String)
both (some episode) (some turn) = some (episode, turn)
both _ _ = none

pub continuation : (rebuilt : Bool) → Intent → Option (String × String) × Intent
continuation rebuilt i =
    if is_some i.pending_message
    then (none, i)
    else if not rebuilt && is_some i.active
    then (none, i)
    else (
      both i.episode i.interrupted,
      record i { episode = none; interrupted = none; active = if rebuilt then none else i.active },
    )

-- `recover_for_message` of message_recovery.rs, where a message takes the slot, and where it gives
-- it back.
pub take_slot : Intent → Option Intent
take_slot i =
    if is_some i.pending_message
    then none
    else some (record i {
      pending_message = some false;
      interrupted = none;
      episode = none;
      resume_goal = none;
    })

pub release_slot : Intent → Intent
release_slot i = record i { pending_message = none }

-- The state that `retry_for_message` leaves for a new attempt.
pub ask_resend : Intent → Intent
ask_resend i = record i {
  interrupted = none;
  episode = none;
  resume_goal = none;
  resend_after_recovery = true;
}

-- `continue_interrupted` of supervisor.rs, where the continuation was submitted as this turn.
pub submitted : String → Intent → Intent
submitted id i = if holds_text i.completed id then i else record i { active = some id }

pub data Step : Type 0 where
  observes : (now : ℕ) → SessionEvent → Step
  disconnects : (fresh : String) → Step
  cancels continues_as : String → Step
  continues : (rebuilt : Bool) → Step
  takes_slot releases_slot asks_resend : Step

step : Step → Intent → Intent
unfolding observe disconnect cancel continuation take_slot release_slot ask_resend submitted
step (observes now e) i = observe now e i
step (disconnects fresh) i = disconnect fresh i
step (cancels turn) i = cancel turn i
step (continues_as id) i = submitted id i
step (continues rebuilt) i = (continuation rebuilt i).1
step takes_slot i = elim (take_slot i) [ none ↦ i | some taken ↦ taken ]
step releases_slot i = release_slot i
step asks_resend i = ask_resend i

pub steps : List Step → Intent → Intent
unfolding step
steps [] i = i
steps (s ∷ rest) i = steps rest (step s i)
