-- ===== src/Transfer/World.antt =====
-- What a transfer endpoint reads and writes on disk (crates/transfer/src/journal.rs, inspect.rs),
-- seen from one destination path and one token: the destination's entry in its directory, and the
-- token's staging directory beside it.
--
-- Each file system call of the code is one `tick`: it takes the next event of a schedule, by which
-- the call may fail, another process may put something else at the destination just before it, or
-- the frontend may stop the endpoint. When the schedule is used up all calls succeed. A process
-- that dies is one whose next call fails: the code has no step after a failure.
pub mod Splice
use remote_codex.Base.{
  ℕ, ◌+◌, ◌*◌, ◌-◌, ◌%◌, min, String, Bool, true, false, Option, none, some, List, [], ◌∷◌, ◌++◌,
  Result, ok, err, length, take, drop, replicate, ◌≡◌, arith,
}
use remote_codex.Transfer.{Kind, file, directory, unsupported, Stamp, Fault, transfer_io}

pub record Meta : Type 0 where
  pub mtime : ℕ
  pub mtime_nsec : ℕ
  pub device : ℕ
  pub inode : ℕ
  pub mode : ℕ

pub record File : Type 0 where
  pub bytes : List ℕ
  pub meta : Meta

-- A directory entry. Symbolic links are not followed, and count as `special`.
pub data Node : Type 0 where
  regular : File → Node
  folder special : (size : ℕ) → Meta → Node

pub record Journal : Type 0 where
  pub owner : String
  pub path : String
  pub source : Stamp
  pub expected : Option Stamp
  pub offset : ℕ
  pub digest : Option String
  pub committed : Bool

-- The staging directory: `data`, `state.json`, `next.json` and `lock`. `busy` says that another
-- process holds the lock.
pub record Stage : Type 0 where
  pub content : Option File
  pub state : Option Journal
  pub next : Option Journal
  pub lock : Bool
  pub busy : Bool

pub data Event : Type 0 where
  pass : Event
  -- the call fails; a `write_all` has by then written this many bytes
  fail : ℕ → Event
  change : Option Node → Event
  stop : Event

-- One publication: what stood at the destination, and the file put there.
pub record Publication : Type 0 where
  pub replaced : Option Node
  pub placed : File

pub record World : Type 0 where
  pub entry : Option Node
  pub stage : Option Stage
  pub cancelled : Bool
  pub events : List Event
  -- a history of the renames onto the destination, which no code reads
  pub published : List Publication

abbrev pub u64_max : ℕ
u64_max = 18446744073709551615

-- `saturating_mul` and `saturating_add` on `u64`.
abbrev pub modified : Meta → ℕ
modified m = min u64_max (min u64_max (m.mtime * 1000000000) + m.mtime_nsec)

abbrev pub stamp_of : Kind → ℕ → Meta → Stamp
stamp_of kind size m = record {
  kind = kind;
  length = size;
  modified_ns = modified m;
  device = m.device;
  inode = m.inode;
  mode = m.mode % 512;
}

unfoldable pub stamp : Node → Stamp
stamp (regular f) = stamp_of file (length f.bytes) f.meta
stamp (folder size m) = stamp_of directory size m
stamp (special size m) = stamp_of unsupported size m

abbrev pub M {ℓ} : Type ℓ → Type ℓ
M A = World → Result Fault A × World

module _ {ℓ κ} {A : Type ℓ} {B : Type κ} where
  infixl 5 ◌>>=◌
  unfoldable pub ◌>>=◌ : M A → (A → M B) → M B
  ◌>>=◌ m f w = let (r, w') = m w in elim r [ ok a ↦ f a w' | err e ↦ (err e, w') ]

infixl 5 ◌>>◌
unfoldable pub ◌>>◌ {ℓ κ} : {A : Type ℓ} {B : Type κ} → M A → M B → M B
unfolding ◌>>=◌
m >> k = m >>= λ _. k

module _ {ℓ} {A : Type ℓ} where
  unfoldable pub pure : A → M A
  pure a w = (ok a, w)

  unfoldable pub throw : Fault → M A
  throw e w = (err e, w)

unfoldable pub when : Bool → M (Unit {0}) → M (Unit {0})
unfolding pure
when true m = m
when false m = pure tt

unfoldable pub gets {ℓ} : {A : Type ℓ} → (World → A) → M A
gets f w = (ok (f w), w)

unfoldable pub modify : (World → World) → M (Unit {0})
modify f w = (ok tt, f w)

-- The next event, and what it does before the call.
unfoldable pub occur : Event → World → Result ℕ (Unit {0}) × World
occur pass w = (ok tt, w)
occur (fail n) w = (err n, w)
occur (change n) w = (ok tt, record w { entry = n })
occur stop w = (ok tt, record w { cancelled = true })

unfoldable pub next_event : World → Result ℕ (Unit {0}) × World
unfolding occur
next_event w = elim w.events [ [] ↦ (ok tt, w) | e ∷ rest ↦ occur e (record w { events = rest }) ]

abbrev pub answered : Result ℕ (Unit {0}) × World → Result Fault (Unit {0}) × World
answered (ok _, w) = (ok tt, w)
answered (err n, w) = (err transfer_io, w)

-- A call that changes nothing.
unfoldable pub tick : M (Unit {0})
unfolding next_event
tick w = answered (next_event w)

-- No event touches the staging directory.
pub next_event_quiet :
    (w : World) → ((next_event w).1.stage ≡ w.stage) × ((next_event w).1.published ≡ w.published)
unfolding next_event
next_event_quiet w = ground arith

-- A call whose failure the code looks at, and does not pass on.
unfoldable pub attempt {ℓ} : {A : Type ℓ} → M A → M (Option A)
attempt m w = let (r, w') = m w in elim r [ ok a ↦ (ok (some a), w') | err e ↦ (ok none, w') ]

abbrev pub on_stage : (Stage → Stage) → World → World
on_stage f w = record w { stage = elim w.stage [ none ↦ none | some s ↦ some (f s) ] }

abbrev pub on_content : (File → File) → World → World
on_content f =
    on_stage (λ s. record s { content = elim s.content [ none ↦ none | some c ↦ some (f c) ] })

abbrev pub content_of : World → Option File
content_of w = elim w.stage [ none ↦ none | some s ↦ s.content ]

-- What `write_all` at a position leaves of a file; a gap is filled with zeros.
unfoldable pub splice : ℕ → List ℕ → List ℕ → List ℕ
splice at [] old = old
splice at (b ∷ bs) old =
    take at old ++ (replicate (at - length old) 0 ++ ((b ∷ bs) ++ drop (at + length (b ∷ bs)) old))

abbrev pub overwrite : ℕ → List ℕ → World → World
overwrite at bytes = on_content (λ f. record f { bytes = splice at bytes f.bytes })

abbrev pub written : ℕ → List ℕ → Result ℕ (Unit {0}) × World → Result Fault (Unit {0}) × World
written at bytes (ok _, w) = (ok tt, overwrite at bytes w)
written at bytes (err n, w) = (err transfer_io, overwrite at (take n bytes) w)

unfoldable pub write_all : ℕ → List ℕ → M (Unit {0})
unfolding next_event
write_all at bytes w = written at bytes (next_event w)
