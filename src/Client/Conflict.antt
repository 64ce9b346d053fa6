-- ===== src/Client/Conflict.antt =====
-- crates/client/src/transfers/conflict.rs: what becomes of a destination that is already there.
pub mod Consent
pub mod Decided
pub mod Decision
use remote_codex.Base.{
  ℕ, zero, suc, ◌+◌, ◌/◌, ◌%◌, Bool, true, false, not, ◌&&◌, Option, none, some, List, [], ◌∷◌,
  ◌++◌, if◌then◌else◌, ◌==◌, is_some,
}
use remote_codex.Transfer.{Kind, file, directory, Stamp, kind_eq, stamp_eq}
use remote_codex.Config.Text.{Text, text}
use remote_codex.Session.Errors.{argument}
use remote_codex.Exec.{◌>>=◌, ◌>>◌, pure, throw, gets, modify}
use remote_codex.Client.Tasks.{
  Task, Item, Status, Conflict, Choice, replace, keep_both, skip, merge, join,
}
use remote_codex.Client.Peers.{Outside, Client, M, find_stamp}

-- `rsplit_once`
unfoldable pub rsplit_once : ℕ → Text → Option (Text × Text)
rsplit_once separator [] = none
rsplit_once separator (c ∷ t) = elim (rsplit_once separator t) [
  | some (a, b) ↦ some (c ∷ a, b)
  | none ↦ if c == separator then some ([], t) else none
]

-- A number in decimal; a usize has 20 digits at most.
unfoldable pub decimal_with : ℕ → ℕ → Text → Text
decimal_with zero n after = after
decimal_with (suc fuel) n after =
    let here = (b'0' + n % 10) ∷ after in
    elim (n / 10 == 0) [ true ↦ here | false ↦ decimal_with fuel (n / 10) here ]

unfoldable pub decimal : ℕ → Text
unfolding decimal_with
decimal n = decimal_with 20 n []

abbrev or_root : Text → Option (Text × Text) → Text × Text
or_root path none = ([], path)
or_root path (some parts) = parts

abbrev named_parts : Text → Option (Text × Text) → Text × Option Text
named_parts name none = (name, none)
named_parts name (some ([], extension)) = (name, none)
named_parts name (some (c ∷ stem, extension)) = (c ∷ stem, some extension)

abbrev stem_of : Bool → Text → Text × Option Text
stem_of true name = (name, none)
stem_of false name = named_parts name (rsplit_once b'.' name)

abbrev with_dot : Option Text → Text
with_dot none = []
with_dot (some extension) = b'.' ∷ extension

unfoldable pub alternate_in : Text × Text → ℕ → Bool → Text
unfolding rsplit_once decimal join
alternate_in (parent, name) number is_directory =
    let (stem, extension) = stem_of is_directory name in
    join parent (stem ++ (text " (" ++ (decimal number ++ (text ")" ++ with_dot extension))))

unfoldable pub alternate : Text → ℕ → Bool → Text
unfolding alternate_in
alternate path number is_directory =
    alternate_in (or_root path (rsplit_once b'/' path)) number is_directory

abbrev or_else : Option Choice → Option Choice → Option Choice
or_else none b = b
or_else (some a) b = some a

abbrev allowed : Kind → Kind → Choice → Bool
allowed here there replace = kind_eq here file && kind_eq there file
allowed here there merge = kind_eq here directory && kind_eq there directory
allowed here there keep_both = true
allowed here there skip = true

abbrev filtered : (Choice → Bool) → Option Choice → Option Choice
filtered p none = none
filtered p (some choice) = if p choice then some choice else none

unfoldable pub chosen : Task → Item → Stamp → Option Choice
chosen task item stamp =
    filtered (allowed stamp.kind item.stamp.kind) (or_else item.choice task.policy)

abbrev differs : Option Conflict → Stamp → Bool
differs none stamp = false
differs (some conflict) stamp = not (stamp_eq conflict.expected stamp)

-- The destination is another one than the user was asked about.
unfoldable pub is_stale : Task → Item → Stamp → Bool
is_stale task item stamp = is_some item.choice && differs task.view.conflict stamp

module _ {W : Type 0} where
  abbrev pub expects : Option Stamp → Client W → Client W
  expects expected c = record c { item = record c.item { expected = expected } }

  abbrev pub skips : Client W → Client W
  skips c = record c { item = record c.item { skipped = true } }

  abbrev pub renames : Text → Client W → Client W
  renames target c = record c { item = record c.item { target = target } }

  abbrev pub forgets : Client W → Client W
  forgets c = record c {
    item = record c.item { choice = none };
    task = record c.task { view = record c.task.view { conflict = none } };
  }

  abbrev pub asks : Stamp → Client W → Client W
  asks stamp c = record c {
    task = record c.task {
      view = record c.task.view {
        status = Status.conflict;
        conflict = some (record {
          path = c.item.target;
          source = c.item.stamp.kind;
          destination = stamp.kind;
          expected = stamp;
        });
      };
    };
  }

  unfoldable pub ask : Stamp → M W Bool
  ask stamp = do modify (asks stamp); pure false

module _ {W : Type 0} (o : Outside W) where
  -- The loop over the suffixes from one on, so many of them.
  unfoldable pub find_name : ℕ → ℕ → Text → M W Bool
  find_name zero suffix original = throw (argument "Could not find an unused destination name.")
  find_name (suc count) suffix original = do
    modify (λ c. renames (alternate original suffix (kind_eq c.item.stamp.kind directory)) c)
    item ← gets (λ c. c.item)
    found ← find_stamp o false item.root item.target
    elim found [
      | none ↦ modify (expects none) >> pure true
      | some other ↦ find_name count (suffix + 1) original
    ]

  unfoldable pub decide : Option Choice → Stamp → M W Bool
  unfolding find_name ask
  decide none stamp = ask stamp
  decide (some skip) stamp = do modify skips; pure true
  decide (some replace) stamp = do modify (expects (some stamp)); pure true
  decide (some merge) stamp = do modify (expects (some stamp)); pure true
  decide (some keep_both) stamp = do item ← gets (λ c. c.item); find_name 9998 2 item.target

  unfoldable pub resolve : Stamp → M W Bool
  unfolding decide ask
  resolve stamp = do
    c ← gets (λ c. c)
    elim (is_stale c.task c.item stamp) [
      | true ↦ modify forgets >> ask stamp
      | false ↦ decide (chosen c.task c.item stamp) stamp
    ]

  unfoldable pub found_there : Option Stamp → M W Bool
  unfolding resolve
  found_there none = do modify (expects none); pure true
  found_there (some stamp) = resolve stamp

  unfoldable pub destination : M W Bool
  unfolding found_there
  destination = do
    item ← gets (λ c. c.item)
    elim item.prepared [
      | true ↦ pure true
      | false ↦ find_stamp o false item.root item.target >>= found_there
    ]
