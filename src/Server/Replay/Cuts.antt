-- ===== src/Server/Replay/Cuts.antt =====
-- Events in the order of their cursors, cut at one: what the deletions of
-- crates/server/src/storage/retention.rs leave.
use remote_codex.Base.{
  ℕ, zero, suc, ◌+◌, ◌-◌, ◌≤◌, ◌<◌, max, ◌≡◌, refl, ap, Bool, true, List, [], ◌∷◌, ◌++◌, Bool-cases,
  inl, inr, ltb, take, arith, All,
}
use remote_codex.Server.Replay.{Event, size, keep, trim, highest, replay_limit}

abbrev pub Above : ℕ → List Event → Type 0
Above low = All (λ e. low < e.cursor)

abbrev pub UpTo : ℕ → List Event → Type 0
UpTo high = All (λ e. e.cursor ≤ high)

abbrev pub Ascending : List Event → Type 0
Ascending [] = Unit
Ascending (e ∷ events) = Above e.cursor events × Ascending events

pub UpTo-mono :
    (low high : ℕ) (events : List Event) → low ≤ high → UpTo low events → UpTo high events
UpTo-mono low high [] le p = tt
UpTo-mono low high (e ∷ events) le p = (omega arith, UpTo-mono low high events le p.1)

pub Above-mono :
    (low high : ℕ) (events : List Event) → low ≤ high → Above high events → Above low events
Above-mono low high [] le p = tt
Above-mono low high (e ∷ events) le p = (omega arith, Above-mono low high events le p.1)

pub Above-max :
    (a b : ℕ) (events : List Event) → Above a events → Above b events → Above (max a b) events
Above-max a b [] p q = tt
Above-max a b (e ∷ events) p q = (omega arith, Above-max a b events p.1 q.1)

pub UpTo-append :
    (high : ℕ) (xs ys : List Event) → UpTo high xs → UpTo high ys → UpTo high (xs ++ ys)
UpTo-append high [] ys p q = q
UpTo-append high (x ∷ xs) ys p q = (p.0, UpTo-append high xs ys p.1 q)

-- A prefix up to a cursor, and the rest above it.
pub record Cut (events kept : List Event) (at : ℕ) : Type 0 where
  pub removed : List Event
  pub parts : events ≡ removed ++ kept
  pub below : UpTo at removed
  pub over : Above at kept
  pub in_order : Ascending kept

pub Cut_more :
    (e : Event) (events kept : List Event) (at : ℕ)
    → e.cursor ≤ at
    → Cut events kept at
    → Cut (e ∷ events) kept at
Cut_more e events kept at le c = record {
  removed = e ∷ c.removed;
  parts = ap (◌∷◌ e) c.parts;
  below = (le, c.below);
  over = c.over;
  in_order = c.in_order;
}

pub trim_cuts :
    (bytes floor : ℕ) (events : List Event)
    → Above floor events
    → Ascending events
    → Cut events (trim bytes floor events).0 (trim bytes floor events).2
      × (floor ≤ (trim bytes floor events).2)
unfolding trim
trim_cuts bytes floor [] above up =
    (record { removed = []; parts = refl; below = tt; over = tt; in_order = tt }, omega arith)
trim_cuts bytes floor (e ∷ events) above up = elim (Bool-cases (ltb replay_limit bytes)) [
  | inl full ↦
      let (cut, le) = trim_cuts (bytes - size e) e.cursor events up.0 up.1 in
      rw full (
        Cut_more e events (trim (bytes - size e) e.cursor events).0
            (trim (bytes - size e) e.cursor events).2 le cut,
        omega (arith, le, above.0),
      )
  | inr room ↦
      rw room (
        record { removed = []; parts = refl; below = tt; over = above; in_order = up },
        omega arith,
      )
]

pub keep_none :
    (at : ℕ) (events : List Event) → Above at events → keep (λ e. ltb at e.cursor) events ≡ events
keep_none at [] above = refl
keep_none at (e ∷ events) above =
    let over : ltb at e.cursor ≡ true = ground arith in
    rw over (ap (◌∷◌ e) (keep_none at events above.1))

pub keep_cuts :
    (at : ℕ) (events : List Event)
    → Ascending events
    → Cut events (keep (λ e. ltb at e.cursor) events) at
keep_cuts at [] up = record { removed = []; parts = refl; below = tt; over = tt; in_order = tt }
keep_cuts at (e ∷ events) up = elim (Bool-cases (ltb at e.cursor)) [
  | inl over ↦
      let low : at < e.cursor = ground arith in
      let all_over = Above-mono at e.cursor events (omega arith) up.0 in
      rw over (
        rw (keep_none at events all_over) (record {
          removed = [];
          parts = refl;
          below = tt;
          over = (low, all_over);
          in_order = up;
        }))
  | inr under ↦ rw under (
      Cut_more e events (keep (λ e. ltb at e.cursor) events) at (ground arith)
        (keep_cuts at events up.1))
]

abbrev pub Below : ℕ → List Event → Type 0
Below next = All (λ e. e.cursor < next)

pub All-right : (P : Event → Type 0) (xs ys : List Event) → All P (xs ++ ys) → All P ys
All-right P [] ys p = p
All-right P (x ∷ xs) ys p = All-right P xs ys p.1

pub All-end :
    (P : Event → Type 0) (xs : List Event) (e : Event) → All P xs → P e → All P (xs ++ (e ∷ []))
All-end P [] e p q = (q, tt)
All-end P (x ∷ xs) e p q = (p.0, All-end P xs e p.1 q)

pub Below-mono : (a b : ℕ) (events : List Event) → a ≤ b → Below a events → Below b events
Below-mono a b [] le p = tt
Below-mono a b (e ∷ events) le p = (omega arith, Below-mono a b events le p.1)

pub Ascending-end :
    (events : List Event) (e : Event)
    → Ascending events
    → Below e.cursor events
    → Ascending (events ++ (e ∷ []))
Ascending-end [] e up low = (tt, tt)
Ascending-end (x ∷ events) e up low =
    (All-end (λ y. x.cursor < y.cursor) events e up.0 low.0, Ascending-end events e up.1 low.1)

pub trim_floor :
    (n bytes floor : ℕ) (events : List Event)
    → UpTo n events
    → floor ≤ n
    → (trim bytes floor events).2 ≤ n
unfolding trim
trim_floor n bytes floor [] up le = le
trim_floor n bytes floor (e ∷ events) up le = elim (Bool-cases (ltb replay_limit bytes)) [
  | inl full ↦ rw full (trim_floor n (bytes - size e) e.cursor events up.1 up.0)
  | inr room ↦ rw room le
]

pub highest-le : (n : ℕ) (events : List Event) → UpTo n events → highest events ≤ n
highest-le n [] up = omega arith
highest-le n (e ∷ events) up = omega (arith, highest-le n events up.1)

pub UpTo-take : (n k : ℕ) (events : List Event) → UpTo n events → UpTo n (take k events)
UpTo-take n zero events up = tt
UpTo-take n (suc k) [] up = tt
UpTo-take n (suc k) (e ∷ events) up = (up.0, UpTo-take n k events up.1)

pub UpTo-keep :
    (n : ℕ) (p : Event → Bool) (events : List Event) → UpTo n events → UpTo n (keep p events)
UpTo-keep n p [] up = tt
UpTo-keep n p (e ∷ events) up = elim (Bool-cases (p e)) [
  | inl good ↦ rw good (up.0, UpTo-keep n p events up.1)
  | inr bad ↦ rw bad (UpTo-keep n p events up.1)
]

pub UpTo-of_Below : (n : ℕ) (events : List Event) → Below (n + 1) events → UpTo n events
UpTo-of_Below n [] low = tt
UpTo-of_Below n (e ∷ events) low = (omega arith, UpTo-of_Below n events low.1)

pub UpTo-of_less : (n : ℕ) (events : List Event) → Below n events → UpTo (n - 1) events
UpTo-of_less n [] low = tt
UpTo-of_less n (e ∷ events) low = (omega arith, UpTo-of_less n events low.1)
