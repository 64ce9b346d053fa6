-- ===== src/Server.antt =====
-- The service on the remote machine, crates/server/src: what it lets run, and what it keeps of it.
pub mod Policy
pub mod Replay
pub mod Tables
pub mod Operations
use remote_codex.Base.{String, false}
use remote_codex.Session.Errors.{Fault}

-- `Fault::new`
abbrev pub refusal : String → String → Fault
refusal code message = record { code = code; message = message; outcome_unknown = false }
