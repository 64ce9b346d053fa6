-- ===== src/Server/Operations/Run.antt =====
-- The actor of crates/server/src/execution/actor.rs as far as it hands on requests and answers.
use remote_codex.Base.{String, Option, List, [], ◌∷◌}
use remote_codex.Json.{Value}
use remote_codex.Server.Policy.{Runtime, SessionPermissions, CommandApproval}
use remote_codex.Server.Replay.{Replay}
use remote_codex.Server.Tables.{Channel, Fate}
use remote_codex.Server.Operations.{Outside, dispatch}
use remote_codex.Server.Operations.Collect.{collect}

-- What the actor does next with the channel, whether or not it failed before.
pub data Step : Type 0 where
  executes :
      (operation : String) (message : Value) (approval : Option CommandApproval)
      (permissions : Option SessionPermissions)
      → Step
  collects : Value → Step

module _ (o : Outside) where
  unfoldable pub step : Runtime → String → Step → Channel → Channel
  unfolding dispatch collect
  step r channel (executes operation message approval permissions) c =
      (dispatch o r channel operation message approval permissions c).1
  step r channel (collects value) c = (collect o value c).1

  unfoldable pub steps : Runtime → String → List Step → Channel → Channel
  unfolding step
  steps r channel [] c = c
  steps r channel (s ∷ rest) c = steps r channel rest (step r channel s c)

-- The row of a new channel, before anything.
abbrev pub opened : Replay → List Fate → Channel
opened replay fates = record {
  operations = [];
  approvals = [];
  permissions = [];
  jobs = [];
  replay = replay;
  pending = [];
  sent = [];
  fates = fates;
}
