-- ===== src/Session/Errors.antt =====
-- crates/client/src/error.rs: the client's errors, their codes, and the fault that crosses to a
-- frontend. An error of another library is its text; of an I/O error the kind is kept too. What
-- `thiserror` writes for an error is the argument `display`.
use text.Mathlib.Text.{◌==◌ as str_eq}
use remote_codex.Base.{ℕ, String, Bool, true, false, ◌||◌, ◌==◌, if◌then◌else◌}

pub data IoKind : Type 0 where
  broken_pipe connection_reset connection_refused unexpected_eof timed_out other_kind : IoKind

pub data ClientError : Type 0 where
  argument unsupported config endpoint storage data_error download : (text : String) → ClientError
  io_error : IoKind → (text : String) → ClientError
  session_in_use mcp_name_conflict schema private_path not_found name_conflict revision_conflict
        timeout remote_response integrity credentials :
      ClientError
  ssh codex_exit : (status : ℕ) → ClientError
  remote_fault : (code message : String) (outcome_unknown : Bool) → ClientError

-- `Fault` of crates/protocol/src/lib.rs.
pub record Fault : Type 0 where
  pub code : String
  pub message : String
  pub outcome_unknown : Bool

abbrev ssh_code : ℕ → String
ssh_code status =
    if status == 255
    then "SSH_FAILED"
    else if status == 75
    then "REMOTE_BUSY"
    else "REMOTE_OPERATION_FAILED"

abbrev pub code_of : ClientError → String
code_of session_in_use = "SESSION_IN_USE"
code_of mcp_name_conflict = "MCP_NAME_CONFLICT"
code_of (argument _) = "INVALID_ARGUMENT"
code_of (config _) = "INVALID_CONFIGURATION"
code_of (endpoint _) = "INVALID_SSH_TARGET"
code_of (storage _) = "STORAGE_ERROR"
code_of (io_error _ _) = "IO_ERROR"
code_of (data_error _) = "INVALID_STORED_DATA"
code_of schema = "UNSUPPORTED_SCHEMA"
code_of private_path = "INSECURE_STATE_PATH"
code_of not_found = "NOT_FOUND"
code_of name_conflict = "CONNECTION_NAME_CONFLICT"
code_of revision_conflict = "REVISION_CONFLICT"
code_of (unsupported _) = "UNSUPPORTED_CAPABILITY"
code_of (ssh status) = ssh_code status
code_of timeout = "OPERATION_TIMEOUT"
code_of remote_response = "INVALID_REMOTE_RESPONSE"
code_of integrity = "INTEGRITY_MISMATCH"
code_of (download _) = "DOWNLOAD_FAILED"
code_of credentials = "CREDENTIAL_BACKEND_UNAVAILABLE"
code_of (remote_fault code message outcome_unknown) = code
code_of (codex_exit _) = "CODEX_EXITED"

abbrev pub outcome_is_unknown : ClientError → Bool
outcome_is_unknown (remote_fault code message unknown) = unknown
outcome_is_unknown (storage _) = true
outcome_is_unknown (io_error _ _) = true
outcome_is_unknown (ssh _) = true
outcome_is_unknown timeout = true
outcome_is_unknown remote_response = true
outcome_is_unknown _ = false

pub retryable : ClientError → Bool
retryable revision_conflict = true
retryable (ssh status) = status == 255 || status == 75
retryable timeout = true
retryable (download _) = true
retryable (remote_fault code message unknown) =
    (if unknown then false else str_eq code "SERVICE_UPDATE_BUSY" || str_eq code "SETTINGS_BUSY")
retryable _ = false

abbrev pub from_fault : Fault → ClientError
from_fault f = remote_fault f.code f.message f.outcome_unknown

-- `Fault::new`, as an error.
abbrev pub fault : String → String → ClientError
fault code message = remote_fault code message false

pub into_fault : (display : ClientError → String) → ClientError → Fault
into_fault display (remote_fault code message unknown) = record {
  code = code;
  message = message;
  outcome_unknown = unknown;
}
into_fault display e = record {
  code = code_of e;
  message = display e;
  outcome_unknown = outcome_is_unknown e;
}
