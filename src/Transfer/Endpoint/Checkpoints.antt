-- ===== src/Transfer/Endpoint/Checkpoints.antt =====
-- The checkpoint under any sequence of commands to an endpoint (crates/transfer/src/lib.rs).
use remote_codex.Base.{
  ℕ, ◌≡◌, true, false, Option, none, some, List, [], ◌∷◌, length, take, drop, All,
}
use remote_codex.Transfer.{Reply, stat, listing, ready, block, hash, done}
use remote_codex.Transfer.World.{Stage, Publication, World, M}
use remote_codex.Transfer.Triples.{Condition, At, Triple, bind, seq, conseq, pure_lem, require_lem}
use remote_codex.Transfer.Stages.{Endpoint}
use remote_codex.Transfer.Stages.Rules.{Overall, check_cancelled_lem, find_stamp_lem}
use remote_codex.Transfer.Inspect.Quiet.{read_lem, hash_lem, metadata_lem}
use remote_codex.Transfer.Staging.Checkpoint.{Fits, write_rule}
use remote_codex.Transfer.Staging.Resume.{Resumes, prepare_rule}
use remote_codex.Transfer.Staging.Safety.{either_way}
use remote_codex.Transfer.Staging.Keep.{commit_keeps, cancel_keeps}
use remote_codex.Transfer.Endpoint.{
  Command, stats, reads, hashes, prepares, writes, commits, cancels, sets_metadata, answer, handle,
  dispatch, run,
}

-- The block of a write command is the part of the file being sent that its offset says.
abbrev Sends : List ℕ → Command × List ℕ → Type 0
Sends sent (writes offset named, bytes) = bytes ≡ take (length bytes) (drop offset sent)
Sends sent (_, bytes) = Unit

answer_keeps :
    {P : Condition} {m : M Reply} → Triple P m (λ _. P) P → Triple P (answer m) (λ _. P) P
answer_keeps t = bind _ t (λ reply. pure_lem _ (λ s l p. p))

resumes_fits :
    (h : Endpoint) (sent : List ℕ) (r : Reply) (s : Option Stage) (l : List Publication)
    → Resumes sent h r s l
    → Overall (Fits sent) s l
resumes_fits h sent (ready n true) s l p = p
resumes_fits h sent (ready n false) none l p = absurd p
resumes_fits h sent (ready n false) (some s) l p = p.0
resumes_fits h sent (stat s) s' l p = absurd p
resumes_fits h sent (listing page) s l p = absurd p
resumes_fits h sent (block d) s l p = absurd p
resumes_fits h sent (hash d) s l p = absurd p
resumes_fits h sent done s l p = absurd p

handle_keeps :
    (h : Endpoint) (sent : List ℕ) (command : Command) (bytes : List ℕ)
    → Sends sent (command, bytes)
    → Triple
        (Overall (Fits sent))
        (handle h command bytes)
        (λ _. Overall (Fits sent))
        (Overall (Fits sent))
unfolding handle
handle_keeps h sent stats bytes sends =
    answer_keeps (bind _ (find_stamp_lem h) (λ s. pure_lem _ (λ s l p. p)))
handle_keeps h sent (reads source offset) bytes sends = read_lem h source offset
handle_keeps h sent (hashes source) bytes sends =
    answer_keeps (bind _ (hash_lem h source) (λ s. pure_lem _ (λ s l p. p)))
handle_keeps h sent (prepares source expected) bytes sends =
    answer_keeps (conseq (resumes_fits h sent) (prepare_rule sent h source expected))
handle_keeps h sent (writes offset named) bytes sends =
    answer_keeps (write_rule sent h offset named bytes sends)
handle_keeps h sent (commits named) bytes sends = answer_keeps (commit_keeps sent h named)
handle_keeps h sent cancels bytes sends = answer_keeps (cancel_keeps sent h)
handle_keeps h sent (sets_metadata source) bytes sends =
    answer_keeps
      (seq {Q = λ _. Overall (Fits sent)} _ (metadata_lem h source) (pure_lem _ (λ s l p. p)))

dispatch-Keeps :
    (h : Endpoint) (sent : List ℕ) (command : Command) (bytes : List ℕ)
    → Sends sent (command, bytes)
    → Triple
        (Overall (Fits sent))
        (dispatch h command bytes)
        (λ _. Overall (Fits sent))
        (Overall (Fits sent))
unfolding dispatch
dispatch-Keeps h sent command bytes sends =
    seq _ (check_cancelled_lem h)
      (seq _ (conseq (λ _ s l p. p.0) (require_lem _ _)) (handle_keeps h sent command bytes sends))

-- Whatever commands are dispatched in whatever order, whichever of their calls fail, and whenever
-- the endpoint is stopped: if every block written is a part of the file being sent, the staged file
-- holds what its journal says of that file.
pub run_keeps :
    (h : Endpoint) (sent : List ℕ) (commands : List (Command × List ℕ)) (w : World)
    → All (Sends sent) commands
    → At (Overall (Fits sent)) w
    → At (Overall (Fits sent)) (run h commands w)
unfolding run
run_keeps h sent [] w sends fits = fits
run_keeps h sent ((command, bytes) ∷ rest) w sends fits =
    run_keeps h sent rest (dispatch h command bytes w).1 sends.1 (
      either_way (Fits sent) (dispatch h command bytes w)
        ((dispatch-Keeps h sent command bytes sends.0).run w fits))
