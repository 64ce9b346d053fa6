-- ===== src/Server/Operations/Frames.antt =====
-- What the operations of crates/server/src/execution/operations.rs keep of a channel: a condition
-- that the tables they change do not touch.
use remote_codex.Base.{ℕ, String, not, Option, none, some, List, [], ◌∷◌, Result, ok, err, is_some}
use remote_codex.Exec.Triples.{
  Outcome, Triple, bind, seq, weaken, pure_lem, modify_lem, require_lem, if_lem, ite_lem, give_lem,
  gets_then, when_lem,
}
use remote_codex.Session.Errors.{Fault}
use remote_codex.Json.{Value, get, at, as_str, is_text, is_null}
use remote_codex.Server.Policy.{Runtime, SessionPermissions, CommandApproval}
use remote_codex.Server.Replay.{Replay}
use remote_codex.Server.Tables.{
  Channel, M, Fate, passes, fails, fails_late, Job, JobState, Pending, Operation, take_fate, effect,
  update, complete_operation, link_operation, record_approval, keep_permissions, record_permissions,
  set_job_state,
}
use remote_codex.Server.Operations.{
  Outside, append_event, receipt, answer_again, record_grants, record_job, job_for,
}
use remote_codex.Server.Operations.Collect.{
  settle_job, finish, collect_response, exited, note_exit, note, collect,
}

-- It does not speak of these.
pub record Frames (P : Channel → Type 0) : Type 0 where
  pub on_fates : (c : Channel) (l : List Fate) → P c → P (record c { fates = l })
  pub on_replay : (c : Channel) (x : Replay) → P c → P (record c { replay = x })
  pub on_jobs : (c : Channel) (l : List Job) → P c → P (record c { jobs = l })
  pub on_pending : (c : Channel) (l : List (String × Pending)) → P c → P (record c { pending = l })
  pub on_approvals : (c : Channel) (l : List CommandApproval) → P c → P (record c { approvals = l })
  pub on_permissions :
      (c : Channel) (l : List SessionPermissions) → P c → P (record c { permissions = l })
  pub on_update :
      (c : Channel) (operation : String) (f : Operation → Operation)
      → P c
      → P (record c { operations = update operation f c.operations })

abbrev pub Keeps : {A : Type 0} → (Channel → Type 0) → M A → Type 0
Keeps P m = Triple P m (λ _. P) P

pub kept :
    {A : Type 0} (P : Channel → Type 0) (r : Result Fault A × Channel)
    → Outcome (λ _. P) P r
    → P r.1
kept P (ok a, c) h = h
kept P (err e, c) h = h

pub effect_lem :
    {P Q F : Channel → Type 0} (f : Channel → Channel)
    → ((c : Channel) (l : List Fate) → P c → P (record c { fates = l }))
    → ((c : Channel) → P c → Q (f c))
    → ((c : Channel) → P c → F c)
    → ((c : Channel) → P c → F (f c))
    → Triple P (effect f) (λ _. Q) F
unfolding effect
effect_lem {P} {Q} {F} f fated good bad late = record { run = λ c p. taken c.fates c p }
  where
    taken : (l : List Fate) (c : Channel) → P c → Outcome (λ _. Q) F (take_fate f l c)
    taken [] c p = good c p
    taken (passes ∷ l) c p = good (record c { fates = l }) (fated c l p)
    taken (fails ∷ l) c p = bad (record c { fates = l }) (fated c l p)
    taken (fails_late ∷ l) c p = late (record c { fates = l }) (fated c l p)

module _ (o : Outside) (P : Channel → Type 0) (frames : Frames P) where
  open frames use {
    on_fates, on_replay, on_jobs, on_pending, on_approvals, on_permissions, on_update,
  }

  keeping : (f : Channel → Channel) → ((c : Channel) → P c → P (f c)) → Keeps P (effect f)
  keeping f k = effect_lem f on_fates k (λ c p. p) k

  pub append_event-Keeps : (value : Value) → Keeps P (append_event o value)
  unfolding append_event
  append_event-Keeps value = gets_then _ (λ cursor.
      weaken (λ c p. p.0) (seq P (keeping _ (λ c p. on_replay c _ p)) (pure_lem cursor (λ c p. p))))

  pub receipt-Keeps : (operation : String) → Keeps P (receipt o operation)
  unfolding receipt
  receipt-Keeps operation = seq P (append_event-Keeps _) (pure_lem tt (λ c p. p))

  pub complete-Keeps :
      (operation : String) (result : Value) → Keeps P (complete_operation operation result)
  unfolding complete_operation
  complete-Keeps operation result = keeping _ (λ c p. on_update c operation _ p)

  pub link-Keeps : (operation : String) (cursor : ℕ) → Keeps P (link_operation operation cursor)
  unfolding link_operation
  link-Keeps operation cursor = keeping _ (λ c p. on_update c operation _ p)

  pub answer_again-Keeps :
      (result : Option Value) (operation : String) → Keeps P (answer_again o result operation)
  unfolding answer_again
  answer_again-Keeps none operation = receipt-Keeps operation
  answer_again-Keeps (some result) operation =
      seq P
        (when_lem (not (is_null result)) _
          (λ here. seq P (append_event-Keeps result) (pure_lem tt (λ c p. p))) (λ gone c p. p))
        (receipt-Keeps operation)

  record_approval-Keeps : (a : CommandApproval) → Keeps P (record_approval a)
  unfolding record_approval
  record_approval-Keeps a = gets_then _ (λ reused.
      weaken (λ c p. p.0)
        (seq P (require_lem _ _ (λ c p. p) (λ e c p. p)) (keeping _ (λ c p. on_approvals c _ p))))

  keep_permissions-Keeps :
      (old : Option SessionPermissions) (p : SessionPermissions) → Keeps P (keep_permissions old p)
  unfolding keep_permissions
  keep_permissions-Keeps none p = keeping _ (λ c q. on_permissions c _ q)
  keep_permissions-Keeps (some old) p = require_lem _ _ (λ c p. p) (λ e c p. p)

  record_permissions-Keeps : (p : SessionPermissions) → Keeps P (record_permissions p)
  unfolding record_permissions
  record_permissions-Keeps p =
      gets_then _ (λ old. weaken (λ c p. p.0) (keep_permissions-Keeps old p))

  pub record_grants-Keeps :
      (a : Option CommandApproval) (p : Option SessionPermissions) → Keeps P (record_grants o a p)
  unfolding record_grants
  record_grants-Keeps none none = pure_lem tt (λ c p. p)
  record_grants-Keeps (some a) none = record_approval-Keeps a
  record_grants-Keeps none (some p) = record_permissions-Keeps p
  record_grants-Keeps (some a) (some p) =
      seq P (record_approval-Keeps a) (record_permissions-Keeps p)

  record_job-Keeps : (r : Runtime) (params : Value) → Keeps P (record_job o r params)
  unfolding record_job
  record_job-Keeps r params =
      bind (λ _. P) (give_lem _ _ (λ c p. p) (λ a e c p. p))
        (λ process. gets_then _ (λ id.
          weaken (λ c p. p.0)
            (seq P (keeping _ (λ c p. on_jobs c _ p)) (pure_lem (some id) (λ c p. p)))))

  pub job_for-Keeps : (r : Runtime) (message : Value) → Keeps P (job_for o r message)
  unfolding job_for
  job_for-Keeps r message =
      ite_lem (is_text (at message "method") "process/start") _ _
        (λ begins. record_job-Keeps r (at message "params")) (λ other. pure_lem none (λ c p. p))

  set_job_state-Keeps :
      (id : String) (state : JobState) (exit : Option String)
      → Keeps P (set_job_state id state exit)
  unfolding set_job_state
  set_job_state-Keeps id state exit = keeping _ (λ c p. on_jobs c _ p)

  settle-Keeps : (job : Option String) (value : Value) → Keeps P (settle_job o job value)
  unfolding settle_job
  settle-Keeps none value = pure_lem tt (λ c p. p)
  settle-Keeps (some job) value = set_job_state-Keeps job _ none

  finish-Keeps :
      (operation : String) (value : Value) (waiting : Option Pending)
      → Keeps P (finish o operation value waiting)
  unfolding finish
  finish-Keeps operation value none = pure_lem tt (λ c p. p)
  finish-Keeps operation value (some waiting) = seq P (modify_lem _ (λ c p. on_pending c _ p)) (
      seq P (settle-Keeps waiting.job _) (
        seq P (complete-Keeps operation _)
          (bind (λ _. P) (append_event-Keeps _) (link-Keeps operation))))

  collect_response-Keeps :
      (operation : Option String) (value : Value) → Keeps P (collect_response o operation value)
  unfolding collect_response
  collect_response-Keeps none value = pure_lem tt (λ c p. p)
  collect_response-Keeps (some operation) value =
      gets_then _ (λ waiting. weaken (λ c p. p.0) (finish-Keeps operation value waiting))

  exited-Keeps : (job exit : Option String) → Keeps P (exited o job exit)
  unfolding exited
  exited-Keeps none exit = pure_lem tt (λ c p. p)
  exited-Keeps (some job) exit = set_job_state-Keeps job _ exit

  note_exit-Keeps : (process : Option String) (value : Value) → Keeps P (note_exit o process value)
  unfolding note_exit
  note_exit-Keeps none value = pure_lem tt (λ c p. p)
  note_exit-Keeps (some process) value =
      gets_then _ (λ job. weaken (λ c p. p.0) (exited-Keeps job _))

  note-Keeps : (value : Value) → Keeps P (note o value)
  unfolding note
  note-Keeps value =
      ite_lem (is_text (at value "method") "process/output") _ _ (λ output. keeping _ (λ c p. p))
        (λ other.
          ite_lem (is_text (at value "method") "process/exited") _ _
            (λ exit. note_exit-Keeps (as_str (at (at value "params") "processId")) value)
            (λ rest. pure_lem tt (λ c p. p)))

  pub collect-Keeps : (value : Value) → Keeps P (collect o value)
  unfolding collect
  collect-Keeps value =
      if_lem (is_some (get value "method")) _ _
        (λ call.
          seq P (note-Keeps value) (seq P (append_event-Keeps value) (pure_lem tt (λ c p. p))))
        (λ answer. collect_response-Keeps (as_str (at value "id")) value)
