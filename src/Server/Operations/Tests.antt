-- ===== src/Server/Operations/Tests.antt =====
-- Runs of the operations of crates/server/src/execution/operations.rs.
use remote_codex.Base.{String, ◌≡◌, refl, true, false, none, List, [], ◌∷◌, ◌≤◌, any, map}
use remote_codex.Json.{Value, null, string, number, object, end, field}
use remote_codex.Server.Policy.{Runtime, CommandApproval, SessionPermissions}
use remote_codex.Server.Replay.{Replay}
use remote_codex.Server.Tables.{Fate, passes, fails_late}
use remote_codex.Server.Operations.{Outside, dispatch}
use remote_codex.Server.Operations.Collect.{collect}
use remote_codex.Server.Operations.Run.{Step, executes, collects, step, steps, opened}
use remote_codex.Server.Operations.AtMostOnce.{count, sent_once}
use remote_codex.Server.Operations.Permitted.{all_allowed, is_granted}
use remote_codex.Server.Operations.Sent.{sent_allowed}

abbrev outside : Outside
outside = record {
  digest_of = λ message a p. "digest";
  encode = λ value. "event";
  display = λ e. "refused";
  new_job = λ jobs. "job";
  names_directory = λ url path. false;
}

abbrev runtime : Runtime
runtime = record { unrestricted = false; mcp = []; background = true; grace = 60 }

abbrev replay : Replay
replay = record { next = 1; floor = 0; events = []; bytes = 0 }

abbrev call : String → Value
call method = object (
    field "id" (number "7") (
      field "method" (string method)
        (field "params" (object (field "processId" (string "p") end)) end)))

-- A process without a sandbox is refused, a permitted call is sent.
abbrev requests : List Step
requests =
    executes "a" (call "environment/info") none none
    ∷ executes "b" (call "process/start") none none
    ∷ executes "a" (call "environment/info") none none
    ∷ collects (object (field "id" (string "a") (field "result" null end)))
    ∷ []

abbrev late : List Fate
late = passes ∷ passes ∷ fails_late ∷ []

sends_run :
    map (λ s. s.0) (steps outside runtime "channel" requests (opened replay [])).sent ≡ "a" ∷ []
unfolding steps step dispatch collect remote_codex.Exec.◌>>=◌ remote_codex.Exec.gets
    remote_codex.Exec.◌>>◌ remote_codex.Server.Policy.validate
sends_run = refl

sent_once_example :
    count "a" (steps outside runtime "channel" requests (opened replay late)).sent ≤ 1
sent_once_example = sent_once outside runtime "channel" "a" replay late requests

sent_allowed_example :
    all_allowed
      (λ url path. false)
      runtime
      (any is_granted requests)
      (steps outside runtime "channel" requests (opened replay [])).sent
    ≡ true
sent_allowed_example = sent_allowed outside runtime "channel" replay [] requests
