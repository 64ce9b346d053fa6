-- ===== src/Session.antt =====
-- The data of a session that the recovery of a lost connection keeps: crates/core/src/goals.rs,
-- status.rs and the events of session.rs. Signed times are carried as the ℕ of their 64 bits, and
-- so is the floating-point `used_percent`: no code modelled here computes with them.
pub mod Errors
pub mod Intent
pub mod Recovery
use remote_codex.Base.{ℕ, String, Bool, Option, none, List, []}

pub data GoalStatus : Type 0 where
  active paused blocked usage_limited budget_limited complete : GoalStatus

pub record Goal : Type 0 where
  pub thread_id : String
  pub objective : String
  pub status : GoalStatus
  pub token_budget : Option ℕ
  pub tokens_used : ℕ
  pub time_used_seconds : ℕ

pub record PlanStep : Type 0 where
  pub step : String
  pub status : String

pub record Plan : Type 0 where
  pub turn : String
  pub explanation : Option String
  pub steps : List PlanStep

pub record TurnTiming : Type 0 where
  pub started_at : Option ℕ
  pub completed_at : Option ℕ
  pub duration_ms : Option ℕ

pub record TurnState : Type 0 where
  pub id : String
  pub status : String
  pub timing : TurnTiming

pub record TokenUsage : Type 0 where
  pub last_tokens : ℕ
  pub total_tokens : ℕ
  pub input_tokens : ℕ
  pub cached_input_tokens : ℕ
  pub output_tokens : ℕ
  pub reasoning_tokens : ℕ
  pub context_window : Option ℕ

pub record RateWindow : Type 0 where
  pub used_percent : ℕ
  pub window_minutes : Option ℕ
  pub resets_at : Option ℕ

pub record RateLimit : Type 0 where
  pub id : Option String
  pub is_default : Bool
  pub name : String
  pub primary : Option RateWindow
  pub secondary : Option RateWindow

pub record SessionStatus : Type 0 where
  pub provider : Option String
  pub activity : String
  pub active_flags : List String
  pub usage : Option TokenUsage
  pub limits : List RateLimit
  pub limits_error : Option String
  pub limits_updated_at : Option ℕ

-- `SessionStatus::default`
abbrev pub default_status : SessionStatus
default_status = record {
  provider = none;
  activity = "notLoaded";
  active_flags = [];
  usage = none;
  limits = [];
  limits_error = none;
  limits_updated_at = none;
}

pub data TurnOutcome : Type 0 where
  completed interrupted : TurnOutcome
  failed : (message : String) → TurnOutcome

-- The events that an `Intent` looks at; `other_event` stands for each of the others, which it
-- passes over.
pub data SessionEvent : Type 0 where
  goal_changed : Option Goal → SessionEvent
  plan_changed : Plan → SessionEvent
  activity_changed : (activity : String) (active_flags : List String) → SessionEvent
  usage_changed : TokenUsage → SessionEvent
  rate_limits_changed : List RateLimit → SessionEvent
  turn_started : (id : String) (timing : TurnTiming) → SessionEvent
  turn_completed : (id : String) (timing : TurnTiming) (outcome : TurnOutcome) → SessionEvent
  other_event : SessionEvent
