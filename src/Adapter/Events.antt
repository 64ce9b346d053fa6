-- ===== src/Adapter/Events.antt =====
-- crates/codex-adapter/src/events.rs: the events that the messages of Codex stand for, and the
-- messages that the client sends in its place. The text of a JSON value and its parser, the derived
-- reader of a goal, and the projections of tools and of the items of a history (tools.rs,
-- thread/history.rs) are arguments.
pub mod Sent
use package.text.Mathlib.Text.{◌==◌ as str_eq}
use remote_codex.Base.{
  ℕ, String, Bool, true, false, not, ◌&&◌, ◌||◌, Option, none, some, List, [], ◌∷◌, Result, ok, err,
  if◌then◌else◌, is_some,
}
use remote_codex.Session.Errors.{Fault}
use remote_codex.Session.{
  Goal, TurnTiming, TurnOutcome, completed, interrupted, failed, SessionEvent, turn_started,
  turn_completed, other_event,
}
use remote_codex.Json.{
  Value, null, boolean, number, string, array, object, Items, nil, cons, Fields, end, field, get,
  at, or_null, as_str, is_text, is_null, with_field,
}
use remote_codex.Server.{refusal}
use remote_codex.Adapter.Options.{or, unwrap_or, ◌>>=◌}
use remote_codex.Adapter.Status.{Numbers, timing}
use remote_codex.Adapter.Status as Status
use remote_codex.Adapter.Goals.{CollaborationMode, agent, plan, GoalEvent, session, plan_message}
use remote_codex.Adapter.Goals as Goals
use remote_codex.Adapter.Forms.{Interaction, project}

-- crates/core/src/desktop.rs, and crates/core/src/session.rs for what follows.
pub record ConfirmedSettings : Type 0 where
  pub mode : CollaborationMode
  pub model : String
  pub effort : Option String
  pub full_access : Bool
  pub approval_policy : String
  pub reviewer : String

pub data PermissionPreset : Type 0 where
  workspace full_access_preset : PermissionPreset

pub data ApprovalsReviewer : Type 0 where
  user auto_review guardian_subagent : ApprovalsReviewer

pub record SessionSettings : Type 0 where
  pub mode : Option CollaborationMode
  pub model : Option String
  pub effort : Option String
  pub permissions : Option PermissionPreset
  pub reviewer : Option ApprovalsReviewer

pub data ApprovalDecision : Type 0 where
  accept_once cancel : ApprovalDecision

-- A tool and a question of a message stand as they are read elsewhere.
pub record Outside : Type 1 where
  pub ToolItem : Type 0
  pub status_of : ToolItem → String
  pub with_status : String → ToolItem → ToolItem
  pub tool : Value → Option ToolItem
  pub item_text : Value → String
  pub questions : Value → List (String × List String)
  pub numbers : Numbers
  pub read_goal : Value → Option (Option Goal)
  pub to_string : Value → String
  pub from_str : String → Option Value

-- `SessionEvent`: those of `Session`, and the others that Codex's messages stand for.
pub data Event (ToolItem : Type 0) : Type 0 where
  known : SessionEvent → Event ToolItem
  user_message :
      (item_id : String) (client_id : Option String) (turn_id message : String) → Event ToolItem
  plan_text : (item_id turn_id message : String) (complete : Bool) → Event ToolItem
  tool_changed : ToolItem → (turn_id : String) → Event ToolItem
  settings_changed : ConfirmedSettings → Event ToolItem
  interaction_requested : (request_id : String) → Interaction → Event ToolItem
  interaction_resolved : (request_id : String) → Event ToolItem
  warned : (message : String) → Event ToolItem
  message :
      (item_id turn_id : String) (phase : Option String) (words : String) (complete : Bool)
      (delivery : Option String) (questions : List (String × List String))
      → Event ToolItem
  tool_output : (item_id turn_id message : String) → Event ToolItem
  approval_requested : (request_id description : String) → Event ToolItem

abbrev text_at : Value → String → String
text_at value key = unwrap_or "" (as_str (at value key))

-- `desktop::settings`
abbrev confirmed_settings : Value → ConfirmedSettings
confirmed_settings value = record {
  mode = if is_text (at (at value "collaborationMode") "mode") "plan" then plan else agent;
  model = text_at value "model";
  effort = as_str (at value "effort");
  full_access = is_text (at (at value "sandboxPolicy") "type") "dangerFullAccess";
  approval_policy = unwrap_or "custom" (as_str (at value "approvalPolicy"));
  reviewer = unwrap_or "user" (as_str (at value "approvalsReviewer"));
}

unfoldable pub thread_id : Value → Option String
thread_id event =
    as_str (
      or_null
        (or (get (at event "params") "threadId") (get (at (at event "params") "thread") "id")))

abbrev outcome_by : Value → Option String → TurnOutcome
outcome_by turn none =
    failed (unwrap_or "native turn failed" (as_str (at (at turn "error") "message")))
outcome_by turn (some status) =
    if str_eq status "completed"
    then completed
    else if str_eq status "interrupted"
    then interrupted
    else failed (unwrap_or "native turn failed" (as_str (at (at turn "error") "message")))

module _ (o : Outside) where
  open o use {
    ToolItem, status_of, with_status, tool, item_text, questions, numbers, read_goal, to_string,
    from_str,
  }

  abbrev pub requested : Value → Value → String → Event ToolItem
  requested event id method =
      if str_eq method "item/commandExecution/requestApproval"
        || str_eq method "item/fileChange/requestApproval"
      then approval_requested (to_string id) (
          unwrap_or "Codex requests approval" (
            as_str (
              or_null (or (get (at event "params") "command") (get (at event "params") "reason")))))
      else interaction_requested (to_string id) (project event)

  abbrev of_goals : GoalEvent → Event ToolItem
  of_goals (session e) = known e
  of_goals (plan_message item turn words complete) = plan_text item turn words complete

  abbrev of_session : Option SessionEvent → Option (Event ToolItem)
  of_session none = none
  of_session (some e) = some (known e)

  abbrev of_goal_event : Option GoalEvent → Option (Event ToolItem)
  of_goal_event none = none
  of_goal_event (some e) = some (of_goals e)

  abbrev is_item : String → Bool
  is_item method = str_eq method "item/started" || str_eq method "item/completed"

  abbrev tool_event : String → Value → Option ToolItem → Option (Event ToolItem)
  tool_event method params none = none
  tool_event method params (some item) = some (
      tool_changed
        (if str_eq (status_of item) ""
          then with_status (if str_eq method "item/started" then "inProgress" else "completed") item
          else item)
        (text_at params "turnId"))

  -- The last table of `public_event`.
  unfoldable pub by_method : String → Value → Option (Event ToolItem)
  by_method method params =
      let item = at params "item" in
      if str_eq method "warning" || str_eq method "error"
      then some (
          warned (
            unwrap_or "Codex reported an error."
              (or (as_str (at params "message")) (as_str (at (at params "error") "message")))))
      else if str_eq method "serverRequest/resolved"
      then some (interaction_resolved (to_string (at params "requestId")))
      else if is_item method && is_text (at item "type") "userMessage"
      then some (
          user_message (text_at item "id") (as_str (at item "clientId")) (text_at params "turnId")
            (item_text item))
      else if str_eq method "item/agentMessage/delta"
      then some (
          message (text_at params "itemId") (text_at params "turnId") (as_str (at item "phase"))
            (text_at params "delta") false none [])
      else if str_eq method "item/completed" && is_text (at item "type") "agentMessage"
      then some (
          message (text_at item "id") (text_at params "turnId") (as_str (at item "phase"))
            (text_at item "text") true (as_str (at item "delivery")) (questions item))
      else if str_eq method "item/commandExecution/outputDelta"
      then some
          (tool_output (text_at params "itemId") (text_at params "turnId") (text_at params "delta"))
      else if str_eq method "turn/started"
      then some (
          known
            (turn_started (text_at (at params "turn") "id") (timing numbers (at params "turn"))))
      else if str_eq method "turn/completed"
      then some (
          known (
            turn_completed (text_at (at params "turn") "id") (timing numbers (at params "turn"))
              (outcome_by (at params "turn") (as_str (at (at params "turn") "status")))))
      else if str_eq method "thread/settings/updated"
      then some (settings_changed (confirmed_settings (at params "threadSettings")))
      else none

  -- What has no id, or no method.
  unfoldable pub notified : Value → Option String → Option (Event ToolItem)
  unfolding by_method
  notified event none = none
  notified event (some method) =
      or
        (or (of_session (Status.event numbers event)) (of_goal_event (Goals.event read_goal event)))
        (or
          (if is_item method
            then tool_event method (at event "params") (tool (at (at event "params") "item"))
            else none)
          (by_method method (at event "params")))

  abbrev pub public_by : Value → Option Value → Option String → Option (Event ToolItem)
  public_by event (some id) (some method) = some (requested event id method)
  public_by event none method = notified event method
  public_by event (some id) none = notified event none

  unfoldable pub public_event : Value → Option (Event ToolItem)
  unfolding notified
  public_event event = public_by event (get event "id") (as_str (at event "method"))

  abbrev pub is_other : Option String → String → Bool
  is_other none thread = false
  is_other (some id) thread = not (str_eq id thread)

  -- A message of another thread reaches a session only if it asks for an answer, or resolves that.
  unfoldable pub session_event : Value → String → Option (Event ToolItem)
  unfolding public_event thread_id
  session_event event thread =
      if is_other (thread_id event) thread
        && (not (is_some (get event "id"))
            && not (is_text (at event "method") "serverRequest/resolved"))
      then none
      else public_event event

  abbrev invalid : Fault
  invalid = refusal "INVALID_NATIVE_EVENT" "Codex emitted an invalid session event"

  abbrev decision_text : ApprovalDecision → String
  decision_text accept_once = "accept"
  decision_text cancel = "cancel"

  abbrev pub with_id : Option Value → (Value → Value) → Result Fault Value
  with_id none f = err invalid
  with_id (some id) f = ok (f id)

  unfoldable pub approval_response : String → ApprovalDecision → Result Fault Value
  approval_response id d = with_id (from_str id) λ v.
      object (
        field "id" v
          (field "result" (object (field "decision" (string (decision_text d)) end)) end))

  unfoldable pub resolved : String → String → Result Fault Value
  resolved thread id = with_id (from_str id) λ v. object (
      field "method" (string "serverRequest/resolved")
        (field "params" (object (field "threadId" (string thread) (field "requestId" v end))) end))

abbrev unsupported_scope : Fault
unsupported_scope = refusal "UNSUPPORTED_APPROVAL_SCOPE" "approve this command once or cancel it"

abbrev decided : Option String → Result Fault Bool
decided none = ok false
decided (some d) =
    if str_eq d "accept"
    then ok true
    else if str_eq d "cancel" || str_eq d "decline"
    then ok false
    else err unsupported_scope

unfoldable pub decision : Value → Result Fault Bool
decision response = decided (as_str (at (at response "result") "decision"))

abbrev set_text : String → Option String → Value → Value
set_text name none value = value
set_text name (some s) value = with_field value name (string s)

abbrev set_permissions : Option PermissionPreset → Value → Value
set_permissions none value = value
set_permissions (some workspace) value =
    with_field (with_field value "permissions" (string ":workspace")) "approvalPolicy"
      (string "on-request")
set_permissions (some full_access_preset) value =
    with_field (with_field value "permissions" (string ":danger-full-access")) "approvalPolicy"
      (string "never")

abbrev set_reviewer : Option ApprovalsReviewer → Value → Value
set_reviewer none value = value
set_reviewer (some user) value = with_field value "approvalsReviewer" (string "user")
set_reviewer (some auto_review) value = with_field value "approvalsReviewer" (string "auto_review")
set_reviewer (some guardian_subagent) value =
    with_field value "approvalsReviewer" (string "guardian_subagent")

unfoldable pub settings : String → SessionSettings → Value
settings thread options = set_reviewer options.reviewer (
    set_permissions options.permissions (
      set_text "effort" options.effort
        (set_text "model" options.model (object (field "threadId" (string thread) end)))))

-- A turn that is closed in the place of Codex.
abbrev closing : String → Fields → Value
closing thread turn = object (
    field "method" (string "turn/completed") (
      field "params" (object (field "threadId" (string thread) (field "turn" (object turn) end)))
        end))

unfoldable pub interrupted_message : String → String → Value
interrupted_message thread turn = closing thread (
    field "id" (string turn)
      (field "items" (array nil) (field "status" (string "interrupted") (field "error" null end))))

unfoldable pub failed_message : String → String → String → Value
failed_message thread turn words = closing thread (
    field "id" (string turn) (
      field "items" (array nil) (
        field "status" (string "failed") (
          field "error"
            (object (
              field "message" (string words)
                (field "codexErrorInfo" (string "other") (field "additionalDetails" null end))))
            end))))

unfoldable pub warning : String → String → Value
warning thread words = object (
    field "method" (string "warning") (
      field "params"
        (object (field "threadId" (string thread) (field "message" (string words) end))) end))
