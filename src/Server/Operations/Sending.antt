-- ===== src/Server/Operations/Sending.antt =====
-- What `dispatch` of crates/server/src/execution/operations.rs keeps of a channel, for a condition
-- that a message to the executor touches: a stronger one has to hold until the message is sent.
use remote_codex.Base.{String, ◌≡◌, refl, sym, Option, none, some, Result, ok, err, is_some}
use package.text.Mathlib.Text.{◌==◌ as str_eq}
use remote_codex.Exec.Triples.{
  Outcome, Triple, bind, seq, weaken, pure_lem, throw_lem, modify_lem, require_lem, if_lem, ite_lem,
  gets_then,
}
use remote_codex.Session.Errors.{Fault}
use remote_codex.Json.{Value, null, string, get, with_field}
use remote_codex.Server.Policy.{Runtime, SessionPermissions, CommandApproval}
use remote_codex.Server.Tables.{
  Channel, M, Operation, effect, lookup, insert_operation, insert_new, begin_operation, deliver,
  known_state, operation_state,
}
use remote_codex.Server.Operations.{
  Outside, check, send_call, send_response, forward, accept, start, resume, dispatch,
}
use remote_codex.Server.Operations.Frames.{
  Frames, Keeps, effect_lem, append_event-Keeps, receipt-Keeps, complete-Keeps, answer_again-Keeps,
  record_grants-Keeps, job_for-Keeps,
}

some-none : {A : Type 0} {a : A} {x : Option A} → some a ≡ x → x ≡ none → ⊥
some-none same gone = cc

-- A failure may be known to be more than is asked.
Outcome-fails :
    {A : Type 0} (Q : A → Channel → Type 0) (F G : Channel → Type 0)
    → ((c : Channel) → F c → G c)
    → (r : Result Fault A × Channel) → Outcome Q F r
    → Outcome Q G r
Outcome-fails Q F G k (ok a, c) h = h
Outcome-fails Q F G k (err e, c) h = k c h

pub failing :
    {A : Type 0} {P : Channel → Type 0} {m : M A} {Q : A → Channel → Type 0}
    {F G : Channel → Type 0}
    → ((c : Channel) → F c → G c)
    → Triple P m Q F
    → Triple P m Q G
failing {m} {Q} {F} {G} k t = record { run = λ c p. Outcome-fails Q F G k (m c) (t.run c p) }

-- The row of an operation that is new makes the stronger condition true, and a message uses it up.
pub record Sends (operation : String) (Good : Value → Type 0) (P R : Channel → Type 0)
    : Type 0 where
  pub before : Frames P
  pub between : Frames R
  pub forget : (c : Channel) → R c → P c
  pub claims :
      (digest : String) (c : Channel)
      → P c
      → lookup operation c.operations ≡ none
      → R (insert_operation operation digest c)
  pub sends : (message : Value) (c : Channel) → Good message → R c → P (deliver operation message c)

module _ (o : Outside) (operation : String) {Good : Value → Type 0} {P R : Channel → Type 0}
    (s : Sends operation Good P R) where
  open s use {before, between, forget, claims, sends}

  abbrev Known : Option (Option Value) → Channel → Type 0
  Known result c = P c × (result ≡ none → lookup operation c.operations ≡ none)

  known_state_keeps :
      (row : Option Operation) (digest : String)
      → Triple (λ c. P c × (row ≡ lookup operation c.operations)) (known_state row digest) Known P
  unfolding known_state
  known_state_keeps none digest = pure_lem none (λ c p. (p.0, λ same. sym p.1))
  known_state_keeps (some row) digest =
      ite_lem (str_eq row.digest digest) _ _
        (λ yes. pure_lem (some row.result) (λ c p. (p.0, λ same. absurd (some-none same refl))))
        (λ no. throw_lem _ (λ c p. p.0))

  operation_state_keeps : (digest : String) → Triple P (operation_state operation digest) Known P
  unfolding operation_state
  operation_state_keeps digest =
      seq P (effect_lem _ before.on_fates (λ c p. p) (λ c p. p) (λ c p. p))
        (gets_then _ (λ row. known_state_keeps row digest))

  abbrev New : Channel → Type 0
  New c = P c × (lookup operation c.operations ≡ none)

  insert_new_keeps :
      (row : Option Operation) (digest : String)
      → Triple
          (λ c. New c × (row ≡ lookup operation c.operations))
          (insert_new row operation digest)
          (λ _. R)
          P
  unfolding insert_new
  insert_new_keeps none digest =
      weaken (λ c p. p.0)
        (effect_lem _ (λ c l p. (before.on_fates c l p.0, p.1)) (λ c p. claims digest c p.0 p.1)
          (λ c p. p.0) (λ c p. forget _ (claims digest c p.0 p.1)))
  insert_new_keeps (some row) digest = record { run = λ c p. absurd (some-none p.1 p.0.1) }

  begin_keeps : (digest : String) → Triple New (begin_operation operation digest) (λ _. R) P
  unfolding begin_operation
  begin_keeps digest = gets_then _ (λ row. insert_new_keeps row digest)

  after :
      (message : Value) → Good message → Triple R (effect (deliver operation message)) (λ _. P) P
  after message good =
      effect_lem _ between.on_fates (λ c r. sends message c good r) forget
        (λ c r. sends message c good r)

  send_call_keeps :
      (original : Option Value) (job : Option String) (message : Value)
      → Good message
      → Good (with_field message "id" (string operation))
      → Triple R (send_call o operation original job message) (λ _. P) P
  unfolding send_call
  send_call_keeps none job message good named =
      seq P (after message good)
        (seq P (complete-Keeps o P before operation null) (receipt-Keeps o P before operation))
  send_call_keeps (some original) job message good named =
      seq R (modify_lem _ (λ c r. between.on_pending c _ r))
        (seq P (after _ named) (receipt-Keeps o P before operation))

  send_response_keeps :
      (message : Value) → Good message → Triple R (send_response o operation message) (λ _. P) P
  unfolding send_response
  send_response_keeps message good =
      seq P (after message good)
        (seq P (complete-Keeps o P before operation null) (receipt-Keeps o P before operation))

  forward_keeps :
      (r : Runtime) (message : Value)
      → Good message
      → Good (with_field message "id" (string operation))
      → Triple R (forward o r operation message) (λ _. P) P
  unfolding forward
  forward_keeps r message good named =
      if_lem (is_some (get message "method")) _ _
        (λ call.
          bind (λ _. R) (failing forget (job_for-Keeps o R between r message))
            (λ job. send_call_keeps (get message "id") job message good named))
        (λ response. send_response_keeps message good)

  accept_keeps :
      (r : Runtime) (message : Value) (a : Option CommandApproval) (p : Option SessionPermissions)
      (checked : Result Fault (Unit {0}))
      → (checked ≡ ok tt → Good message × Good (with_field message "id" (string operation)))
      → Triple R (accept o r operation message a p checked) (λ _. P) P
  unfolding accept
  accept_keeps r message a p (ok u) k =
      seq R (failing forget (record_grants-Keeps o R between a p))
        (forward_keeps r message (k refl).0 (k refl).1)
  accept_keeps r message a p (err e) k = weaken forget (
      seq P (complete-Keeps o P before operation _)
        (seq P (append_event-Keeps o P before _) (receipt-Keeps o P before operation)))

  module _ (r : Runtime) (channel : String) (message : Value) (a : Option CommandApproval)
      (p : Option SessionPermissions)
      (checked : check o r channel operation message a p ≡ ok tt
        → Good message × Good (with_field message "id" (string operation))) where
    start_keeps : Triple New (start o r channel operation message a p) (λ _. P) P
    unfolding start
    start_keeps = gets_then _ (λ waiting.
        weaken (λ c q. q.0)
          (seq New (require_lem _ _ (λ c q. q.0) (λ e c q. q))
            (seq R (begin_keeps _) (accept_keeps r message a p _ checked))))

    resume_keeps :
        (result : Option (Option Value))
        → Triple (Known result) (resume o r channel operation message a p result) (λ _. P) P
    unfolding resume
    resume_keeps none = weaken (λ c q. (q.0, q.1 refl)) start_keeps
    resume_keeps (some result) =
        weaken (λ c q. q.0) (answer_again-Keeps o P before result operation)

    pub dispatch-Keeps : Keeps P (dispatch o r channel operation message a p)
    unfolding dispatch
    dispatch-Keeps = bind Known (operation_state_keeps _) resume_keeps
