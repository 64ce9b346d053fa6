-- ===== src/Adapter/Goals.antt =====
-- crates/codex-adapter/src/goals.rs and crates/core/src/goals.rs: goals and plans in the messages of
-- Codex. The derived reader of a goal is an argument; a budget is written as its JSON number.
pub mod Sent
use remote_codex.Base.{
  ℕ, String, Bool, true, false, ◌&&◌, ◌||◌, Option, none, some, List, [], ◌∷◌, Result, ok, err,
  if◌then◌else◌, ltb, length, all, ◌==◌,
}
use remote_codex.Config.Text.{text, is_whitespace}
use remote_codex.Session.Errors.{Fault}
use remote_codex.Session.{Goal, PlanStep, SessionEvent, goal_changed, plan_changed}
use remote_codex.Json.{
  Value, null, number, string, array, object, Items, nil, cons, end, field, at, as_str, is_text,
  with_field,
}
use remote_codex.Server.{refusal}
use remote_codex.Adapter.Options.{◌>>=◌}

pub data CollaborationMode : Type 0 where
  agent plan : CollaborationMode

pub data GoalAction : Type 0 where
  set : (objective : String) (token_budget : Option ℕ) → GoalAction
  pause resume clear : GoalAction
  budget : (token_budget : Option ℕ) → GoalAction

abbrev pub is_zero : Option ℕ → Bool
is_zero none = false
is_zero (some n) = n == 0

abbrev invalid : String → Result Fault (String × Value)
invalid message = err (refusal "INVALID_GOAL" message)

abbrev pub is_blank : String → Bool
is_blank s = all is_whitespace (text s)

module _ (print : ℕ → String) where
  abbrev pub json_budget : Option ℕ → Value
  json_budget none = null
  json_budget (some n) = number (print n)

  unfoldable pub params : String → GoalAction → Result Fault (String × Value)
  params thread (set objective token_budget) =
      let value = object (field "threadId" (string thread) end) in
      if is_blank objective || (ltb 4000 (length (text objective)) || is_zero token_budget)
      then invalid "Enter a goal of 1–4,000 characters and a positive optional token budget."
      else ok (
        "thread/goal/set",
        with_field
            (with_field (with_field value "objective" (string objective)) "tokenBudget"
              (json_budget token_budget))
            "status" (string "active"),
      )
  params thread pause = ok (
    "thread/goal/set",
    with_field (object (field "threadId" (string thread) end)) "status" (string "paused"),
  )
  params thread resume = ok (
    "thread/goal/set",
    with_field (object (field "threadId" (string thread) end)) "status" (string "active"),
  )
  params thread (budget token_budget) =
      if is_zero token_budget
      then invalid "The token budget must be positive."
      else ok (
        "thread/goal/set",
        with_field (object (field "threadId" (string thread) end)) "tokenBudget"
            (json_budget token_budget),
      )
  params thread clear = ok ("thread/goal/clear", object (field "threadId" (string thread) end))

unfoldable pub mode : Value → CollaborationMode → Value
mode settings m = object (
    field "mode" (string (elim m [ plan ↦ "plan" | agent ↦ "default" ])) (
      field "settings"
        (object (
          field "model" (at settings "model") (
            field "reasoning_effort" (at settings "effort")
              (field "developer_instructions" null end))))
        end))

-- A step of a plan that has both of its texts.
abbrev plan_step : Value → Option PlanStep
plan_step s = as_str (at s "step") >>= λ step.
    as_str (at s "status") >>= λ status. some (record { step = step; status = status })

abbrev add_step : Option PlanStep → List PlanStep → List PlanStep
add_step none rest = rest
add_step (some s) rest = s ∷ rest

abbrev plan_steps : Items → List PlanStep
plan_steps nil = []
plan_steps (cons s rest) = add_step (plan_step s) (plan_steps rest)

abbrev as_array : Value → Option Items
as_array (array items) = some items
as_array _ = none

-- A message of a plan, and what becomes of it.
pub data GoalEvent : Type 0 where
  session : SessionEvent → GoalEvent
  plan_message : (item_id turn_id message : String) (complete : Bool) → GoalEvent

abbrev changed : Option (Option Goal) → Option GoalEvent
changed none = none
changed (some goal) = some (session (goal_changed goal))

module _ (read : Value → Option (Option Goal)) where
  unfoldable pub event : Value → Option GoalEvent
  event value =
      let p = at value "params" in
      if is_text (at value "method") "thread/goal/updated"
      then changed (read (at p "goal"))
      else if is_text (at value "method") "thread/goal/cleared"
      then some (session (goal_changed none))
      else if is_text (at value "method") "turn/plan/updated"
      then (as_str (at p "turnId") >>= λ turn. as_array (at p "plan") >>= λ steps. some (
          session (
            plan_changed (record {
              turn = turn;
              explanation = as_str (at p "explanation");
              steps = plan_steps steps;
            }))))
      else if is_text (at value "method") "item/plan/delta"
      then (as_str (at p "turnId") >>= λ turn. as_str (at p "itemId") >>= λ item.
          as_str (at p "delta") >>= λ delta. some (plan_message item turn delta false))
      else if is_text (at value "method") "item/completed"
          && is_text (at (at p "item") "type") "plan"
      then (as_str (at p "turnId") >>= λ turn. as_str (at (at p "item") "id") >>= λ item.
          as_str (at (at p "item") "text") >>= λ whole. some (plan_message item turn whole true))
      else none
