-- ===== src/Server/Operations/Collect.antt =====
-- `collect` of crates/server/src/execution/operations.rs: what the executor says.
use package.text.Mathlib.Text.{◌==◌ as str_eq}
use remote_codex.Base.{String, true, false, Option, none, some, if◌then◌else◌, is_some}
use remote_codex.Exec.{◌>>=◌, ◌>>◌, pure, gets, modify}
use remote_codex.Json.{Value, number, get, at, as_str, is_text, with_field}
use remote_codex.Server.Tables.{
  Channel, M, JobState, completed, failed, running, Pending, effect, lookup, remove,
  complete_operation, link_operation, set_job_state, newest,
}
use remote_codex.Server.Operations.{Outside, append_event}

abbrev pub dequeue : String → Channel → Channel
dequeue operation c = record c { pending = remove operation c.pending }

module _ (o : Outside) where
  abbrev state_of : Value → JobState
  state_of value = if is_some (get value "error") then failed else running

  unfoldable pub settle_job : Option String → Value → M (Unit {0})
  unfolding set_job_state pure
  settle_job none value = pure tt
  settle_job (some job) value = set_job_state job (state_of value) none

  -- The answer to a request that waits.
  unfoldable pub finish : String → Value → Option Pending → M (Unit {0})
  unfolding settle_job complete_operation append_event link_operation pure modify
  finish operation value none = pure tt
  finish operation value (some p) = do
    let answer = with_field value "id" p.original
    modify (dequeue operation)
    settle_job p.job answer
    complete_operation operation answer
    cursor ← append_event o answer
    link_operation operation cursor

  unfoldable pub collect_response : Option String → Value → M (Unit {0})
  unfolding finish pure
  collect_response none value = pure tt
  collect_response (some operation) value = do
    waiting ← gets (λ c. lookup operation c.pending)
    finish operation value waiting

  abbrev exit_of : Value → Option String
  exit_of (number text) = some text
  exit_of _ = none

  abbrev exit_state : Option String → JobState
  exit_state none = failed
  exit_state (some text) = if str_eq text "0" then completed else failed

  unfoldable pub exited : Option String → Option String → M (Unit {0})
  unfolding set_job_state pure
  exited none exit = pure tt
  exited (some job) exit = set_job_state job (exit_state exit) exit

  unfoldable pub note_exit : Option String → Value → M (Unit {0})
  unfolding exited pure effect
  note_exit none value = pure tt
  note_exit (some process) value = do
    job ← gets (λ c. newest process c.jobs)
    exited job (exit_of (at (at value "params") "exitCode"))

  -- Output goes to a table that is left out.
  unfoldable pub note : Value → M (Unit {0})
  unfolding note_exit effect pure
  note value =
      if is_text (at value "method") "process/output"
      then effect (λ c. c)
      else if is_text (at value "method") "process/exited"
      then note_exit (as_str (at (at value "params") "processId")) value
      else pure tt

  unfoldable pub collect : Value → M (Unit {0})
  unfolding collect_response note append_event
  collect value = elim (is_some (get value "method")) [
    | false ↦ collect_response (as_str (at value "id")) value
    | true ↦ note value >> (append_event o value >> pure tt)
  ]
