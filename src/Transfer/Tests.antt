-- ===== src/Transfer/Tests.antt =====
-- The endpoint of crates/transfer/src on a concrete disk.
use remote_codex.Base.{
  ℕ, String, ◌≡◌, refl, ◌⊎◌, true, false, Option, none, some, List, [], ◌∷◌, ok, arith,
}
use remote_codex.Transfer.{file, Stamp, ready, done}
use remote_codex.Transfer.World.{Meta, File, Journal, Stage, World, M, pass, fail, change, stop}
use remote_codex.Transfer.Triples.{At}
use remote_codex.Transfer.Stages
use remote_codex.Transfer.World
use remote_codex.Transfer.Inspect
use remote_codex.Transfer.Paths
use remote_codex.Transfer.Stages.{Endpoint}
use remote_codex.Transfer.Stages.Rules.{Overall, Held}
use remote_codex.Transfer.Staging
use remote_codex.Transfer.Staging.{commit, prepare}
use remote_codex.Transfer.Staging.Checkpoint.{Fits}
use remote_codex.Transfer.Staging.Resume.{Exactly}
use remote_codex.Transfer.Staging.Publication.{Published}
use remote_codex.Transfer.Inspect.{with_mode, with_times}
use remote_codex.Transfer.Staging.Arrival.{empty_disk, upload, transfer_arrives}
use remote_codex.Transfer.Staging.Commit.{Seen}
use remote_codex.Transfer.Staging.Safety.{commit_publishes, commit_answers, prepare_resumes}
use remote_codex.Transfer.Endpoint.{prepares, writes, commits, cancels, run}
use remote_codex.Transfer.Endpoint.Checkpoints.{run_keeps}

abbrev plain : Meta
plain = record { mtime = 0; mtime_nsec = 0; device = 1; inode = 2; mode = 384 }

abbrev size_of : List ℕ → String
size_of [] = "none"
size_of (b ∷ []) = "one"
size_of (b ∷ c ∷ bytes) = "more"

abbrev endpoint : Endpoint
endpoint = record {
  owner = "id";
  path = "a/b";
  token = "t";
  digest = size_of;
  is_uuid = λ t. true;
  fresh = plain;
  journal_size = λ j. 100;
}

abbrev source_stamp : Stamp
source_stamp = record {
  kind = file;
  length = 2;
  modified_ns = 5000000007;
  device = 1;
  inode = 9;
  mode = 420;
}

abbrev sent_bytes : List ℕ
sent_bytes = 104 ∷ 105 ∷ []

-- The whole file is staged, and no digest is recorded.
abbrev staged_journal : Journal
staged_journal = record {
  owner = "id";
  path = "a/b";
  source = source_stamp;
  expected = none;
  offset = 2;
  digest = none;
  committed = false;
}

abbrev stage_with : List ℕ → Journal → Stage
stage_with bytes j = record {
  content = some (record { bytes = bytes; meta = plain });
  state = some j;
  next = none;
  lock = false;
  busy = false;
}

abbrev disk : Option Stage → World
disk s = record { entry = none; stage = s; cancelled = false; events = []; published = [] }

abbrev staged_disk : World
staged_disk = disk (some (stage_with sent_bytes staged_journal))

commit_publishes_example :
    let after = (commit endpoint "more" staged_disk).1.published in
    (after ≡ []) ⊎ Published endpoint staged_journal "more" [] after
commit_publishes_example =
    commit_publishes endpoint staged_journal "more" staged_disk
      (stage_with sent_bytes staged_journal) refl refl

commit_runs : (commit endpoint "more" staged_disk).0 ≡ ok done
unfolding commit Staging.check_gone Staging.finish_gone Staging.finish Staging.publish
    Staging.rename_file Stages.stage Stages.parent Stages.open_parent Stages.stage_name
    Stages.create_for Stages.lock_stage Stages.load_journal Stages.read_whole Stages.is_readable
    Stages.choose_journal Stages.save Stages.find_stamp Stages.stat_parent Stages.require
    Stages.give Stages.call Stages.open_content Stages.check_cancelled Inspect.content_metadata
    Inspect.hash_file World.◌>>=◌ World.◌>>◌ World.pure World.throw World.when World.gets
    World.modify World.tick World.attempt World.next_event World.occur World.stamp Paths.components
commit_runs = refl

-- One byte more than the journal says is staged.
abbrev half_journal : Journal
half_journal = record staged_journal { offset = 1 }

abbrev half_disk : World
half_disk = disk (some (stage_with sent_bytes half_journal))

run_keeps_example : At (Overall (Fits sent_bytes)) (
    run endpoint
      ((prepares source_stamp none, [])
        ∷ (writes 0 "one", 104 ∷ [])
        ∷ (writes 1 "one", 105 ∷ [])
        ∷ (commits "more", [])
        ∷ (cancels, [])
        ∷ [])
      (record (disk none) { events = pass ∷ pass ∷ fail 1 ∷ stop ∷ [] }))
run_keeps_example =
    run_keeps endpoint sent_bytes
      ((prepares source_stamp none, [])
        ∷ (writes 0 "one", 104 ∷ [])
        ∷ (writes 1 "one", 105 ∷ [])
        ∷ (commits "more", [])
        ∷ (cancels, [])
        ∷ [])
      (record (disk none) { events = pass ∷ pass ∷ fail 1 ∷ stop ∷ [] })
      (tt, (refl, (refl, (tt, (tt, tt))))) tt

commit_answers_example :
    let after = (commit endpoint "more" staged_disk).1.published in
    Published endpoint staged_journal "more" [] after
    ⊎ ((after ≡ []) × Seen endpoint staged_journal)
commit_answers_example =
    commit_answers endpoint staged_journal "more" staged_disk (stage_with sent_bytes staged_journal)
      done refl refl commit_runs

prepare_runs : (prepare endpoint source_stamp none half_disk).0 ≡ ok (ready 1 false)
unfolding prepare Staging.cut_back Staging.settle Staging.settle_digest Staging.settle_gone
    Stages.stage Stages.parent Stages.open_parent Stages.stage_name Stages.create_for
    Stages.create_stage Stages.make_stage Stages.lock_stage Stages.load_journal Stages.read_whole
    Stages.is_readable Stages.choose_journal Stages.save Stages.find_stamp Stages.stat_parent
    Stages.require Stages.give Stages.call Stages.open_content World.◌>>=◌ World.◌>>◌ World.pure
    World.throw World.when World.gets World.modify World.tick World.attempt World.next_event
    World.occur World.stamp Paths.components
prepare_runs = refl

prepare_resumes_example :
    At
      (Held (λ c st l. Exactly sent_bytes endpoint 1 c))
      (prepare endpoint source_stamp none half_disk).1
prepare_resumes_example =
    prepare_resumes endpoint sent_bytes source_stamp none half_disk 1
      (λ e. (ground arith, refl, ground arith)) prepare_runs

endpoint_names : Paths.components (Paths.codes "a/b") ≡ ok (Paths.codes "a" ∷ Paths.codes "b" ∷ [])
unfolding Paths.components
endpoint_names = refl

transfer_arrives_example :
    let start = prepare endpoint source_stamp none (empty_disk []) in
    let sent = upload endpoint 0 ((104 ∷ []) ∷ (105 ∷ []) ∷ []) "more" start.1 in
    (start.0 ≡ ok (ready 0 false))
    × (sent.0 ≡ ok done)
    × (sent.1.published
        ≡ record {
          replaced = none;
          placed = record {
            bytes = sent_bytes;
            meta = with_times source_stamp (with_mode source_stamp plain);
          };
        }
          ∷ [])
unfolding Stages.is_readable
transfer_arrives_example =
    transfer_arrives endpoint (Paths.codes "a") (Paths.codes "b" ∷ []) refl endpoint_names
      source_stamp ((104 ∷ []) ∷ (105 ∷ []) ∷ []) [] refl refl refl (λ offset low. refl)

-- The staged file was put in place, and the commit that did so was stopped.
abbrev placed_journal : Journal
placed_journal = record staged_journal { digest = some "more" }
