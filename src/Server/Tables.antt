-- ===== src/Server/Tables.antt =====
-- The tables of crates/server/src/storage that operations write (execution.rs, jobs.rs, and
-- `begin_operation` and `complete_operation` of storage.rs), for one channel. An operation is kept
-- by its name, since the channel is part of every key. A statement may fail without effect or with
-- it. Of a job what is looked at again is kept; its output is not modelled.
use package.text.Mathlib.Text.{◌==◌ as str_eq}
use remote_codex.Base.{
  ℕ, String, Bool, true, false, not, ◌&&◌, Option, none, some, List, [], ◌∷◌, Result, ok, err,
  if◌then◌else◌, any, map,
}
use remote_codex.Exec.{Exec, ◌>>=◌, ◌>>◌, pure, throw, gets, require}
use remote_codex.Session.Errors.{Fault}
use remote_codex.Json.{Value, at, as_str}
use remote_codex.Server.{refusal}
use remote_codex.Server.Policy.{SessionPermissions, CommandApproval}
use remote_codex.Server.Replay.{Replay}

pub record Operation : Type 0 where
  pub digest : String
  pub result : Option Value
  pub cursor : Option ℕ

pub data JobState : Type 0 where
  starting running completed failed unknown : JobState

pub record Job : Type 0 where
  pub id : String
  pub process : String
  pub kind : String
  pub thread : Option String
  pub cwd : String
  pub state : JobState
  pub exit : Option String

pub record Pending : Type 0 where
  pub original : Value
  pub job : Option String

-- What the next call does.
pub data Fate : Type 0 where
  passes fails fails_late : Fate

-- The rows of the channel, what waits for the executor's answer, and what was sent to it.
pub record Channel : Type 0 where
  pub operations : List (String × Operation)
  pub approvals : List CommandApproval
  pub permissions : List SessionPermissions
  pub jobs : List Job
  pub replay : Replay
  pub pending : List (String × Pending)
  pub sent : List (String × Value)
  pub fates : List Fate

abbrev pub M {ℓ} : Type ℓ → Type ℓ
M A = Exec Fault Channel A

abbrev storage_error : Fault
storage_error = refusal "STORAGE_ERROR" "cannot persist"

abbrev pub after_fate : (Channel → Channel) → Fate → Channel → Result Fault (Unit {0}) × Channel
after_fate f passes c = (ok tt, f c)
after_fate f fails c = (err storage_error, c)
after_fate f fails_late c = (err storage_error, f c)

abbrev pub take_fate : (Channel → Channel) → List Fate → Channel → Result Fault (Unit {0}) × Channel
take_fate f [] c = (ok tt, f c)
take_fate f (fate ∷ fates) c = after_fate f fate (record c { fates = fates })

-- A statement of SQL, or a message to the executor.
unfoldable pub effect : (Channel → Channel) → M (Unit {0})
effect f c = take_fate f c.fates c

abbrev pub lookup : {A : Type 0} → String → List (String × A) → Option A
lookup key [] = none
lookup key ((other, a) ∷ rows) = if str_eq other key then some a else lookup key rows

abbrev pub update : {A : Type 0} → String → (A → A) → List (String × A) → List (String × A)
update key f [] = []
update key f ((other, a) ∷ rows) = (other, if str_eq other key then f a else a) ∷ update key f rows

abbrev pub remove : {A : Type 0} → String → List (String × A) → List (String × A)
remove key [] = []
remove key ((other, a) ∷ rows) =
    let rest = remove key rows in if str_eq other key then rest else (other, a) ∷ rest

abbrev pub request_conflict : Fault
request_conflict = refusal "REQUEST_CONFLICT" "request identity reused with different arguments"

unfoldable pub known_state : Option Operation → String → M (Option (Option Value))
unfolding pure throw
known_state none digest = pure none
known_state (some row) digest =
    if str_eq row.digest digest then pure (some row.result) else throw request_conflict

unfoldable pub operation_state : String → String → M (Option (Option Value))
unfolding known_state
operation_state operation digest = do
  effect (λ c. c)
  row ← gets (λ c. lookup operation c.operations)
  known_state row digest

abbrev already : Option Value → M (Unit {0})
already none = throw (record {
  code = "OUTCOME_UNKNOWN";
  message = "previous operation was dispatched; inspect remote jobs before retrying";
  outcome_unknown = true;
})
already (some result) = pure tt

abbrev pub new_row : String → Operation
new_row digest = record { digest = digest; result = none; cursor = none }

abbrev pub insert_operation : String → String → Channel → Channel
insert_operation operation digest c = record c {
  operations = (operation, new_row digest) ∷ c.operations;
}

unfoldable pub insert_new : Option Operation → String → String → M (Unit {0})
unfolding pure throw effect
insert_new none operation digest = effect (insert_operation operation digest)
insert_new (some row) operation digest =
    if str_eq row.digest digest then already row.result else throw request_conflict

unfoldable pub begin_operation : String → String → M (Unit {0})
unfolding insert_new
begin_operation operation digest = do
  row ← gets (λ c. lookup operation c.operations)
  insert_new row operation digest

unfoldable pub complete_operation : String → Value → M (Unit {0})
complete_operation operation result = effect λ c. record c {
  operations = update operation (λ row. record row { result = some result }) c.operations;
}

unfoldable pub link_operation : String → ℕ → M (Unit {0})
link_operation operation cursor = effect λ c. record c {
  operations = update operation (λ row. record row { cursor = some cursor }) c.operations;
}

-- The primary key of a recorded approval is its name.
unfoldable pub record_approval : CommandApproval → M (Unit {0})
record_approval approval = do
  reused ← gets (λ c. any (λ (a : CommandApproval). str_eq a.id approval.id) c.approvals)
  require (not reused)
      (refusal "APPROVAL_REUSED" "approval has already authorized another operation")
  effect (λ c. record c { approvals = approval ∷ c.approvals })

abbrev find_permissions : String → List SessionPermissions → Option SessionPermissions
find_permissions id [] = none
find_permissions id (p ∷ rest) = if str_eq p.id id then some p else find_permissions id rest

unfoldable pub keep_permissions : Option SessionPermissions → SessionPermissions → M (Unit {0})
unfolding require effect
keep_permissions none p = effect (λ c. record c { permissions = p ∷ c.permissions })
keep_permissions (some old) p =
    require (str_eq old.channel p.channel && str_eq old.thread p.thread)
      (refusal "APPROVAL_MISMATCH" "session permission identity reused in another context")

unfoldable pub record_permissions : SessionPermissions → M (Unit {0})
unfolding keep_permissions
record_permissions p = do
  old ← gets (λ c. find_permissions p.id c.permissions)
  keep_permissions old p

abbrev pub or_text : Option String → String
or_text none = ""
or_text (some s) = s

abbrev or_else : {A : Type 0} → Option A → Option A → Option A
or_else none b = b
or_else (some a) b = some a

abbrev pub job_thread : Value → Option String
job_thread params =
    or_else (as_str (at (at params "env") "CODEX_THREAD_ID"))
      (as_str (at (at params "auditMetadata") "conversationId"))

abbrev is_live : JobState → Bool
is_live starting = true
is_live running = true
is_live _ = false

abbrev may_become : JobState → JobState → Bool
may_become old running = elim old [ starting ↦ true | _ ↦ false ]
may_become old _ = is_live old

abbrev changed_job : String → JobState → Option String → Job → Job
changed_job id state exit j =
    if str_eq j.id id && may_become j.state state
    then record j { state = state; exit = exit }
    else j

unfoldable pub set_job_state : String → JobState → Option String → M (Unit {0})
set_job_state id state exit =
    effect (λ c. record c { jobs = map (changed_job id state exit) c.jobs })

abbrev pub newest : String → List Job → Option String
newest process [] = none
newest process (j ∷ jobs) = if str_eq j.process process then some j.id else newest process jobs

abbrev pub enqueue : String → Pending → Channel → Channel
enqueue operation p c = record c { pending = (operation, p) ∷ remove operation c.pending }

abbrev pub deliver : String → Value → Channel → Channel
deliver operation message c = record c { sent = (operation, message) ∷ c.sent }
