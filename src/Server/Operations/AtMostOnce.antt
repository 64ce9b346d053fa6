-- ===== src/Server/Operations/AtMostOnce.antt =====
-- How often an operation of crates/server/src/execution/operations.rs reaches the executor.
use package.text.Mathlib.Text.{◌==◌ as str_eq}
use package.text.Mathlib.TextEquality.{eq_iff}
use mathlib.Core.Path.{subst}
use remote_codex.Transfer.Staging.Arrival.{str_eq_refl}
use remote_codex.Base.{
  ℕ, String, ◌≡◌, refl, sym, ap, Bool, true, false, Option, none, some, List, [], ◌∷◌,
  if◌then◌else◌, ◌+◌, ◌≤◌, arith,
}
use remote_codex.Json.{Value}
use remote_codex.Server.Policy.{Runtime, SessionPermissions, CommandApproval}
use remote_codex.Server.Replay.{Replay}
use remote_codex.Server.Tables.{Channel, Fate, lookup, update, new_row}
use remote_codex.Server.Operations.{Outside, dispatch}
use remote_codex.Server.Operations.Collect.{collect}
use remote_codex.Server.Operations.Run.{Step, executes, collects, step, steps, opened}
use remote_codex.Server.Operations.Frames.{Frames, Keeps, kept, collect-Keeps}
use remote_codex.Server.Operations.Sending.{Sends, dispatch-Keeps}

-- How often a name stands in a table, or in what was sent.
abbrev pub count : {A : Type 0} → String → List (String × A) → ℕ
count key [] = 0
count key ((other, a) ∷ rows) = (if str_eq other key then 1 else 0) + count key rows

count_from :
    {A : Type 0} (key : String) (a : A) (l : List (String × A)) (b : Bool)
    → (lookup key l ≡ none → count key l ≡ 0)
    → (if b then some a else lookup key l) ≡ none
    → (if b then 1 else 0) + count key l ≡ 0
count_from key a l true rest gone = absurd (cc)
count_from key a l false rest gone = let none_left = rest gone in omega arith

count_nothing :
    {A : Type 0} (key : String) (l : List (String × A)) → lookup key l ≡ none → count key l ≡ 0
count_nothing key [] same = refl
count_nothing key ((other, a) ∷ l) same =
    count_from key a l (str_eq other key) (count_nothing key l) same

count-update :
    {A : Type 0} (key name : String) (f : A → A) (l : List (String × A))
    → count key (update name f l) ≡ count key l
count-update key name f [] = refl
count-update key name f ((other, a) ∷ l) =
    ap (λ n. (if str_eq other key then 1 else 0) + n) (count-update key name f l)

-- A condition on how often an operation was sent and how many rows it has.
Counted-Frames :
    (operation : String) (Q : ℕ → ℕ → Type 0)
    → Frames (λ c. Q (count operation c.sent) (count operation c.operations))
Counted-Frames operation Q = record {
  on_fates = λ c l p. p;
  on_replay = λ c l p. p;
  on_jobs = λ c l p. p;
  on_pending = λ c l p. p;
  on_approvals = λ c l p. p;
  on_permissions = λ c l p. p;
  on_update = λ c name f p.
      subst (λ rows. Q (count operation c.sent) rows)
        (sym (count-update operation name f c.operations)) p;
}

-- An operation was sent only as often as it has a row, and has one row at most.
abbrev Once : ℕ → ℕ → Type 0
Once sent rows = (sent ≤ rows) × (rows ≤ 1)

-- It has a row and was not sent.
abbrev Claimed : ℕ → ℕ → Type 0
Claimed sent rows = (sent ≡ 0) × (rows ≡ 1)

abbrev Holds : (ℕ → ℕ → Type 0) → String → Channel → Type 0
Holds Q operation c = Q (count operation c.sent) (count operation c.operations)

count_self :
    {A : Type 0} (key : String) (a : A) (l : List (String × A))
    → count key ((key, a) ∷ l) ≡ 1 + count key l
count_self key a l = ap (λ (b : Bool). (if b then 1 else 0) + count key l) (str_eq_refl key)

Once-Sends :
    (operation : String)
    → Sends operation (λ message. Unit {0}) (Holds Once operation) (Holds Claimed operation)
Once-Sends operation = record {
  before = Counted-Frames operation Once;
  between = Counted-Frames operation Claimed;
  forget = λ c r. forgotten (count operation c.sent) (count operation c.operations) r;
  claims = λ digest c p gone.
      claimed c _ p (count_nothing operation c.operations gone)
        (count_self operation (new_row digest) c.operations);
  sends = λ message c good r. sent c _ r (count_self operation message c.sent);
}
  where
    forgotten : (n m : ℕ) → Claimed n m → Once n m
    forgotten n m r = let a = r.0 in let b = r.1 in (omega arith, omega arith)

    claimed :
        (c : Channel) (rows : ℕ)
        → Holds Once operation c
        → count operation c.operations ≡ 0
        → rows ≡ 1 + count operation c.operations
        → Claimed (count operation c.sent) rows
    claimed c rows p gone same = let a = p.0 in (omega arith, omega arith)

    sent :
        (c : Channel) (n : ℕ)
        → Holds Claimed operation c
        → n ≡ 1 + count operation c.sent
        → Once n (count operation c.operations)
    sent c n r same = let a = r.0 in let b = r.1 in (omega arith, omega arith)

weightless : (b : Bool) → b ≡ false → (n : ℕ) → n ≡ (if b then 1 else 0) + n
weightless true differs n = absurd (cc)
weightless false differs n = omega arith

count_other :
    {A : Type 0} (key other : String) (a : A) (l : List (String × A))
    → str_eq other key ≡ false
    → count key l ≡ count key ((other, a) ∷ l)
count_other key other a l differs = weightless (str_eq other key) differs (count key l)

-- An operation of another name changes neither count.
Other-Sends :
    (operation other : String)
    → str_eq other operation ≡ false
    → Sends other (λ message. Unit {0}) (Holds Once operation) (Holds Once operation)
Other-Sends operation other differs = record {
  before = Counted-Frames operation Once;
  between = Counted-Frames operation Once;
  forget = λ c r. r;
  claims = λ digest c p gone.
      subst (λ rows. Once (count operation c.sent) rows)
        (count_other operation other (new_row digest) c.operations differs) p;
  sends = λ message c good r.
      subst (λ n. Once n (count operation c.operations))
        (count_other operation other message c.sent differs) r;
}

module _ (o : Outside) (r : Runtime) (channel operation : String) where
  dispatch-Once :
      (name : String) (message : Value) (a : Option CommandApproval) (p : Option SessionPermissions)
      (b : Bool)
      → str_eq name operation ≡ b
      → Keeps (Holds Once operation) (dispatch o r channel name message a p)
  dispatch-Once name message a p true same =
      subst (λ n. Keeps (Holds Once operation) (dispatch o r channel n message a p))
        (sym ((eq_iff name operation).0 same))
        (dispatch-Keeps o operation (Once-Sends operation) r channel message a p
          (λ checked. (tt, tt)))
  dispatch-Once name message a p false same =
      dispatch-Keeps o name (Other-Sends operation name same) r channel message a p
        (λ checked. (tt, tt))

  step-Once :
      (s : Step) (c : Channel)
      → Holds Once operation c
      → Holds Once operation (step o r channel s c)
  unfolding step
  step-Once (executes name message a p) c h =
      kept (Holds Once operation) (dispatch o r channel name message a p c)
        ((dispatch-Once name message a p (str_eq name operation) refl).run c h)
  step-Once (collects value) c h =
      kept (Holds Once operation) (collect o value c)
        ((collect-Keeps o (Holds Once operation) (Counted-Frames operation Once) value).run c h)

  steps-Once :
      (l : List Step) (c : Channel)
      → Holds Once operation c
      → Holds Once operation (steps o r channel l c)
  unfolding steps
  steps-Once [] c h = h
  steps-Once (s ∷ l) c h = steps-Once l (step o r channel s c) (step-Once s c h)

  -- A new channel is given any requests, as often as any, and any answers, and any of its statements
  -- and of its messages to the executor fails, with effect or without: no operation is sent to the
  -- executor twice.
  pub sent_once :
      (replay : Replay) (fates : List Fate) (l : List Step)
      → count operation (steps o r channel l (opened replay fates)).sent ≤ 1
  sent_once replay fates l =
      let held = steps-Once l (opened replay fates) (omega arith, omega arith) in
      let has_row = held.0 in let one_row = held.1 in omega arith
