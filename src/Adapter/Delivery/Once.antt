-- ===== src/Adapter/Delivery/Once.antt =====
-- How often a request is sent to the frontend: `send` of
-- crates/codex-adapter/src/gateway/connection.rs.
use package.text.Mathlib.Text.{◌==◌ as str_eq}
use package.text.Mathlib.TextEquality.{eq_iff}
use mathlib.Core.Path.{subst}
use remote_codex.Base.{
  ℕ, String, ◌≡◌, refl, sym, ap, ◌∙◌, Bool, true, false, ◌&&◌, ◌||◌, Option, some, List, [], ◌∷◌,
  if◌then◌else◌, ltb, is_some, ◌+◌, ◌≤◌, arith,
}
use remote_codex.Session.Errors.{Fault}
use remote_codex.Json.{Value}
use remote_codex.Adapter.Delivery.{
  Connection, enqueue, holds, without, is_request, is_resolved, request_id, resolved_id, inserted,
  marked, is_delivered, full, or_insert, output_capacity, send, Step, sends, writes, ends, step,
  steps, accepted,
}

module _ (encode : Value → String) (id : String) where
  abbrev requests : Value → Bool
  requests value = is_request encode value && str_eq (request_id encode value) id

  abbrev resolves : Value → Bool
  resolves value = is_resolved encode value && str_eq (resolved_id encode value) id

  -- How often the request was sent since it was resolved, or at all.
  abbrev pub open_copies : List Value → ℕ
  open_copies [] = 0
  open_copies (value ∷ before) =
      let more = open_copies before in
      if resolves value then 0 else (if requests value then 1 else 0) + more

  -- The id of another request may be taken out.
  holds_first :
      (other first : String) (ids rest : List String) (b : Bool)
      → str_eq first other ≡ b
      → str_eq other id ≡ false
      → holds id rest ≡ holds id ids
      → holds id (if b then rest else first ∷ rest) ≡ holds id (first ∷ ids)
  holds_first other first ids rest true same differs kept =
      let named : str_eq first id ≡ false =
        ap (λ n. str_eq n id) ((eq_iff first other).0 same) ∙ differs in
      rw named kept
  holds_first other first ids rest false apart differs kept = rw kept refl

  holds-without :
      (other : String) (ids : List String)
      → str_eq other id ≡ false
      → holds id (without other ids) ≡ holds id ids
  holds-without other [] differs = refl
  holds-without other (first ∷ ids) differs =
      holds_first other first ids (without other ids) (str_eq first other) refl differs
        (holds-without other ids differs)

  holds-inserted :
      (value : Value) (ids : List String)
      → holds id (inserted encode value ids) ≡ (requests value || holds id ids)
  holds-inserted value ids = ground arith

  holds-marked :
      (value : Value) (ids : List String)
      → resolves value ≡ false
      → holds id (marked encode value ids) ≡ (requests value || holds id ids)
  holds-marked value ids kept = by_kind (is_resolved encode value) kept
    where
      by_kind :
          (b : Bool)
          → (b && str_eq (resolved_id encode value) id) ≡ false
          → holds id (
              if b
              then without (resolved_id encode value) (inserted encode value ids)
              else inserted encode value ids)
            ≡ (requests value || holds id ids)
      by_kind true differs =
          holds-without (resolved_id encode value) (inserted encode value ids) differs
          ∙ holds-inserted value ids
      by_kind false differs = holds-inserted value ids

  abbrev at_most : Bool → ℕ
  at_most known = if known then 1 else 0

  -- While nothing was dropped, an open request is one of the delivered ones.
  abbrev Marks : List Value → Bool → Type 0
  Marks sent known = open_copies sent ≤ at_most known

  Marks-more :
      (value : Value) (sent : List Value) (known later : Bool)
      → (requests value && known) ≡ false
      → (resolves value ≡ false → later ≡ (requests value || known))
      → Marks sent known
      → Marks (value ∷ sent) later
  Marks-more value sent known later new same held =
      counted (resolves value) (requests value) known later (open_copies sent) new same held
    where
      counted :
          (b a known later : Bool) (n : ℕ)
          → (a && known) ≡ false
          → (b ≡ false → later ≡ (a || known))
          → n ≤ at_most known
          → (if b then 0 else (if a then 1 else 0) + n) ≤ at_most later
      counted true a known later n new same held = ground arith
      counted false a known later n new same held =
          subst (λ b. (if a then 1 else 0) + n ≤ at_most b) (sym (same refl)) (ground arith)

  abbrev Once : List Value → Bool → Option Fault → Bool → Type 0
  Once sent known failure closed =
      is_some failure ≡ false → (open_copies sent ≤ 1) × (closed ≡ false → Marks sent known)

  abbrev Holds : Connection → Type 0
  Holds c = Once c.outgoing (holds id c.delivered_requests) c.failure c.closed

  -- What is queued, or dropped because the queue is full or the writer has ended.
  enqueue-Once :
      (value : Value) (c : Connection) (known : Bool)
      → (requests value && known) ≡ false
      → (resolves value ≡ false → holds id c.delivered_requests ≡ (requests value || known))
      → Once c.outgoing known c.failure c.closed
      → Holds (enqueue value c)
  unfolding enqueue
  enqueue-Once value c known new same held = by_closed c.closed refl
    where
      most : (known : Bool) (n : ℕ) → n ≤ at_most known → n ≤ 1
      most true n le = le
      most false n le = omega arith

      queued :
          c.closed ≡ false
          → Once (value ∷ c.outgoing) (holds id c.delivered_requests) c.failure c.closed
      queued here whole =
          let marks =
            Marks-more value c.outgoing known (holds id c.delivered_requests) new same
              ((held whole).1 here) in
          (most (holds id c.delivered_requests) _ marks, λ still. marks)

      by_room :
          (b : Bool)
          → c.closed ≡ false
          → Holds (
              if b
              then record c { outgoing = value ∷ c.outgoing; waiting = c.waiting + 1 }
              else record c { failure = some (or_insert c.failure full) })
      by_room true here whole = queued here whole
      by_room false here whole = absurd (cc)

      by_closed :
          (b : Bool)
          → c.closed ≡ b
          → Holds (
              if b
              then c
              else if ltb c.waiting output_capacity
              then record c { outgoing = value ∷ c.outgoing; waiting = c.waiting + 1 }
              else record c { failure = some (or_insert c.failure full) })
      by_closed true gone whole = ((held whole).0, λ here. absurd (cc))
      by_closed false here whole = by_room (ltb c.waiting output_capacity) here whole

  requests_held :
      (value : Value) (ids : List String)
      → is_delivered encode value ids ≡ false
      → (requests value && holds id ids) ≡ false
  requests_held value ids fresh =
      by_id (is_request encode value) (str_eq (request_id encode value) id) refl fresh
    where
      by_id :
          (q b : Bool)
          → str_eq (request_id encode value) id ≡ b
          → (q && holds (request_id encode value) ids) ≡ false
          → ((q && b) && holds id ids) ≡ false
      by_id true true is fresh =
          subst (λ n. holds n ids ≡ false) ((eq_iff (request_id encode value) id).0 is) fresh
      by_id true false is fresh = refl
      by_id false b is fresh = refl

  send_once : (value : Value) (c : Connection) → Holds c → Holds (send encode value c)
  unfolding send
  send_once value c held = by_known (is_delivered encode value c.delivered_requests) refl
    where
      by_known :
          (b : Bool)
          → is_delivered encode value c.delivered_requests ≡ b
          → Holds (
              if b
              then c
              else enqueue value
                  (record c { delivered_requests = marked encode value c.delivered_requests }))
      by_known true again = held
      by_known false fresh =
          enqueue-Once value
            (record c { delivered_requests = marked encode value c.delivered_requests })
            (holds id c.delivered_requests) (requests_held value c.delivered_requests fresh)
            (holds-marked value c.delivered_requests) held

  steps-Once : (l : List Step) (c : Connection) → Holds c → Holds (steps encode l c)
  unfolding steps step
  steps-Once [] c held = held
  steps-Once (sends value ∷ l) c held = steps-Once l _ (send_once value c held)
  steps-Once (writes ∷ l) c held = steps-Once l _ held
  steps-Once (ends ∷ l) c held = steps-Once l _ (λ whole. ((held whole).0, λ here. absurd (cc)))

  -- A new connection is sent any messages while the writer writes them and may end. As long as no
  -- message was dropped because the queue was full, a request of the server was put into the queue
  -- once at most, or once at most after the last message that says that it is resolved.
  pub delivered_once :
      (l : List Step)
      → is_some (steps encode l accepted).failure ≡ false
      → open_copies (steps encode l accepted).outgoing ≤ 1
  delivered_once l whole =
      (steps-Once l accepted (λ new. (omega arith, λ here. omega arith)) whole).0
