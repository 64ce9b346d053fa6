-- ===== src/Server/Replay/Tests.antt =====
-- The events of a channel of crates/server/src/storage/retention.rs on concrete rows.
use remote_codex.Base.{◌≡◌, refl, List, [], ◌∷◌, ok, ltb, take}
use remote_codex.Server.Replay.{
  Event, keep, execution_events, appends, acknowledges, elsewhere, steps, opened, Step,
}
use remote_codex.Server.Replay.Complete.{appended, replay_complete}
use remote_codex.Server.Replay.Bounds.{IsCounted, replay-IsCounted}

abbrev some_steps : List Step
some_steps = appends "a" ∷ elsewhere ∷ appends "b" ∷ acknowledges 1 ∷ []

abbrev second : List Event
second = record { cursor = 3; record_text = "b" } ∷ []

events_after : execution_events 1 (steps some_steps (opened 0)) ≡ ok second
unfolding execution_events steps
events_after = refl

replay_complete_example :
    second ≡ take 64 (keep (λ e. ltb 1 e.cursor) (appended some_steps (opened 0)))
replay_complete_example = replay_complete 0 some_steps 1 second events_after

replay-IsCounted_example : IsCounted (steps some_steps (opened 0))
replay-IsCounted_example = replay-IsCounted 0 some_steps
