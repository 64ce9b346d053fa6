-- ===== src/Server/Operations.antt =====
-- crates/server/src/execution/operations.rs: the operations of one channel, from a request to the
-- executor and back. SHA-256 of a request, the text of a JSON value and of a fault, and new names of
-- jobs are arguments. A message to the executor may be lost or not where sending it fails, as with
-- the statements of `Tables`.
pub mod Collect
pub mod Run
pub mod Frames
pub mod Sending
pub mod AtMostOnce
pub mod Permitted
pub mod Sent
mod Tests
use package.text.Mathlib.Text.{◌==◌ as str_eq}
use remote_codex.Base.{
  ℕ, String, Bool, true, false, not, ◌&&◌, ◌||◌, Option, none, some, List, [], ◌∷◌, ◌++◌, Result,
  ok, err, if◌then◌else◌, ltb, length, is_some,
}
use remote_codex.Exec.{Exec, ◌>>=◌, ◌>>◌, pure, throw, gets, give, lift, modify, require, when}
use remote_codex.Session.Errors.{Fault}
use remote_codex.Json.{
  Value, null, number, string, object, Fields, end, field, get, at, as_str, or_null, is_null,
  is_text, with_field,
}
use remote_codex.Server.{refusal}
use remote_codex.Server.Policy.{
  Runtime, SessionPermissions, CommandApproval, permissions_match, valid_for, authorized_mcp,
  validate,
}
use remote_codex.Server.Replay.{Replay, append_record}
use remote_codex.Server.Tables.{
  Channel, M, Fate, Job, JobState, starting, completed, failed, running, Pending, effect, lookup,
  remove, operation_state, begin_operation, complete_operation, link_operation, record_approval,
  record_permissions, set_job_state, newest, job_thread, or_text, enqueue, deliver,
}

-- What stands outside of the program.
pub record Outside : Type 0 where
  pub digest_of : Value → Option CommandApproval → Option SessionPermissions → String
  pub encode : Value → String
  pub display : Fault → String
  pub new_job : List Job → String
  pub names_directory : String → String → Bool

abbrev pub appended : ℕ × Replay → Channel → Channel
appended (cursor, replay) c = record c { replay = replay }

abbrev pub error_response : String → Option Value → Value
error_response text original = object (
    field "id" (or_null original) (
      field "error" (object (field "code" (number "-32000") (field "message" (string text) end)))
        end))

abbrev pub receipt_of : String → Value
receipt_of operation = object (
    field "method" (string "remoteCodex/operationAccepted")
      (field "params" (object (field "operation" (string operation) end)) end))

module _ (o : Outside) where
  open o use {digest_of, encode, display, new_job, names_directory}

  unfoldable pub append_event : Value → M ℕ
  append_event value = do
    cursor ← gets (λ c. c.replay.next)
    effect (λ c. appended (append_record (encode value) c.replay) c)
    pure cursor

  unfoldable pub receipt : String → M (Unit {0})
  unfolding append_event
  receipt operation = do append_event (receipt_of operation); pure tt

  -- A request that was seen before: its result is sent again, if it is there.
  unfoldable pub answer_again : Option Value → String → M (Unit {0})
  unfolding append_event receipt when
  answer_again none operation = receipt operation
  answer_again (some result) operation = do
    when (not (is_null result)) do append_event result; pure tt
    receipt operation

  unfoldable pub check :
      Runtime
      → (channel operation : String) → Value
      → Option CommandApproval
      → Option SessionPermissions
      → Result Fault (Unit {0})
  check r channel operation message (some a) (some p) =
      err (refusal "APPROVAL_MISMATCH" "multiple execution authorization scopes")
  check r channel operation message none (some p) =
      if not (permissions_match p channel message)
      then err (refusal "APPROVAL_MISMATCH" "session permissions do not authorize this operation")
      else validate names_directory r message false true
  check r channel operation message (some a) none =
      if not (valid_for a channel operation message)
      then err (refusal "APPROVAL_MISMATCH" "approval does not authorize this operation")
      else validate names_directory r message true false
  check r channel operation message none none = validate names_directory r message false false

  unfoldable pub record_grants : Option CommandApproval → Option SessionPermissions → M (Unit {0})
  unfolding record_approval record_permissions pure
  record_grants none none = pure tt
  record_grants (some a) none = record_approval a
  record_grants none (some p) = record_permissions p
  record_grants (some a) (some p) = do record_approval a; record_permissions p

  -- `record_job`, with the kind of job that `dispatch` gives.
  unfoldable pub record_job : Runtime → Value → M (Option String)
  record_job r params = do
    process ←
        give (as_str (at params "processId")) (refusal "INVALID_EXECUTION" "process ID missing")
    id ← gets (λ c. new_job c.jobs)
    effect (λ c. record c {
      jobs =
          record {
            id = id;
            process = process;
            kind = if authorized_mcp names_directory r params then "mcp" else "command";
            thread = job_thread params;
            cwd = or_text (as_str (at params "cwd"));
            state = starting;
            exit = none;
          }
          ∷ c.jobs;
    })
    pure (some id)

  unfoldable pub job_for : Runtime → Value → M (Option String)
  unfolding record_job pure
  job_for r message =
      if is_text (at message "method") "process/start"
      then record_job r (at message "params")
      else pure none

  -- With an id of its own the message is known again when it is answered.
  unfoldable pub send_call : String → Option Value → Option String → Value → M (Unit {0})
  unfolding effect complete_operation receipt modify
  send_call operation none job message = do
    effect (deliver operation message)
    complete_operation operation null
    receipt operation
  send_call operation (some original) job message = do
    modify (enqueue operation (record { original = original; job = job }))
    effect (deliver operation (with_field message "id" (string operation)))
    receipt operation

  unfoldable pub send_response : String → Value → M (Unit {0})
  unfolding effect complete_operation receipt
  send_response operation message = do
    effect (deliver operation message)
    complete_operation operation null
    receipt operation

  unfoldable pub forward : Runtime → String → Value → M (Unit {0})
  unfolding send_call send_response job_for
  forward r operation message = elim (is_some (get message "method")) [
    | false ↦ send_response operation message
    | true ↦ job_for r message >>= λ job. send_call operation (get message "id") job message
  ]

  unfoldable pub accept :
      Runtime
      → String
      → Value
      → Option CommandApproval
      → Option SessionPermissions
      → Result Fault (Unit {0})
      → M (Unit {0})
  unfolding forward record_grants complete_operation append_event receipt
  accept r operation message approval permissions (ok _) = do
    record_grants approval permissions
    forward r operation message
  accept r operation message approval permissions (err e) = do
    let response = error_response (display e) (get message "id")
    complete_operation operation response
    append_event response
    receipt operation

  unfoldable pub start :
      Runtime
      → (channel operation : String) → Value
      → Option CommandApproval
      → Option SessionPermissions
      → M (Unit {0})
  unfolding accept check begin_operation
  start r channel operation message approval permissions = do
    waiting ← gets (λ c. length c.pending)
    require (ltb waiting 64) (refusal "EXECUTION_BUSY" "too many pending execution requests")
    begin_operation operation (digest_of message approval permissions)
    accept r operation message approval permissions
        (check r channel operation message approval permissions)

  unfoldable pub resume :
      Runtime
      → (channel operation : String) → Value
      → Option CommandApproval
      → Option SessionPermissions
      → Option (Option Value)
      → M (Unit {0})
  unfolding start answer_again
  resume r channel operation message approval permissions (some result) =
      answer_again result operation
  resume r channel operation message approval permissions none =
      start r channel operation message approval permissions

  unfoldable pub dispatch :
      Runtime
      → (channel operation : String) → Value
      → Option CommandApproval
      → Option SessionPermissions
      → M (Unit {0})
  unfolding resume operation_state
  dispatch r channel operation message approval permissions = do
    existing ← operation_state operation (digest_of message approval permissions)
    resume r channel operation message approval permissions existing
