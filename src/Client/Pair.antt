-- ===== src/Client/Pair.antt =====
-- The two ends of a transfer, each an endpoint of crates/transfer/src: `Peers::call` of
-- crates/client/src/transfers/peer.rs dispatches to the local one and sends to the remote one, where
-- the service dispatches the command that it has read. What lies between is not modelled: every
-- command arrives and so does its answer. Each end has one path and one token; a command for
-- another is refused here. The store keeps what it is given.
pub mod Quiet
pub mod Rounds
pub mod Arrival
use package.text.Mathlib.Text.{◌==◌ as str_eq}
use remote_codex.Base.{
  ℕ, String, Bool, true, false, ◌&&◌, Option, none, some, List, Result, ok, err, if◌then◌else◌,
}
use remote_codex.Transfer.{Fault, Reply}
use remote_codex.Transfer.Paths.{codes}
use remote_codex.Transfer.World.{World}
use remote_codex.Transfer.Stages.{Endpoint}
use remote_codex.Transfer.Endpoint
use remote_codex.Config.Text.{Text, text_eq}
use remote_codex.Session.Errors.{ClientError}
use remote_codex.Client.Peers.{
  Command, stats, lists, reads, hashes, prepares, writes, commits, cancels, makes_directory,
  sets_metadata, Answer, Outside,
}

abbrev about : {A : Type 0} → Endpoint → Text → A → Option A
about h path a = if text_eq path (codes h.path) then some a else none

abbrev staged : {A : Type 0} → Endpoint → Text → String → A → Option A
staged h path token a = if text_eq path (codes h.path) && str_eq token h.token then some a else none

-- The command as the endpoint of one path and one token has it.
unfoldable pub command_at : Endpoint → Command → Option Endpoint.Command
command_at h (stats path) = about h path Endpoint.stats
command_at h (lists path after) = none
command_at h (reads path stamp offset) = about h path (Endpoint.reads stamp offset)
command_at h (hashes path stamp) = about h path (Endpoint.hashes stamp)
command_at h (prepares path token source expected) =
    staged h path token (Endpoint.prepares source expected)
command_at h (writes path token offset digest) = staged h path token (Endpoint.writes offset digest)
command_at h (commits path token digest) = staged h path token (Endpoint.commits digest)
command_at h (cancels path token) = staged h path token Endpoint.cancels
command_at h (makes_directory path) = none
command_at h (sets_metadata path stamp) = about h path (Endpoint.sets_metadata stamp)

abbrev pub answered : (Fault → ClientError) → Result Fault (Reply × List ℕ) × World → Answer × World
answered refuse (ok a, w) = (ok a, w)
answered refuse (err e, w) = (err (refuse e), w)

module _ (refuse : Fault → ClientError) (elsewhere : ClientError) where
  abbrev dispatched : Endpoint → Option Endpoint.Command → List ℕ → World → Answer × World
  dispatched h none bytes w = (err elsewhere, w)
  dispatched h (some command) bytes w = answered refuse (Endpoint.dispatch h command bytes w)

  unfoldable pub serve : Endpoint → Command → List ℕ → World → Answer × World
  unfolding command_at
  serve h command bytes w = dispatched h (command_at h command) bytes w

  abbrev on_source : World × World → Answer × World → Answer × (World × World)
  on_source w (answer, s) = (answer, (s, w.1))

  abbrev on_destination : World × World → Answer × World → Answer × (World × World)
  on_destination w (answer, t) = (answer, (w.0, t))

  abbrev ask_pair :
      Endpoint → Endpoint → Bool → Command → List ℕ → World × World → Answer × (World × World)
  ask_pair source destination true command bytes w = on_source w (serve source command bytes w.0)
  ask_pair source destination false command bytes w =
      on_destination w (serve destination command bytes w.1)

  -- The source's end and the destination's.
  abbrev pub pair : Endpoint → Endpoint → Outside (World × World)
  pair source destination = record {
    ask = λ from_source root. ask_pair source destination from_source;
    store_item = λ item w. (ok tt, w);
    store_task = λ task w. (ok tt, w);
  }
