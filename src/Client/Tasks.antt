-- ===== src/Client/Tasks.antt =====
-- crates/client/src/transfers/model.rs: the tasks and items that the client keeps of a transfer.
-- Paths are code points; a grant's directory and the identities are texts. `index` is an i64 that
-- starts at 0, and `files`, `completed` and `skipped` count entries.
use remote_codex.Base.{ℕ, String, Bool, Option, List, [], ◌∷◌, ◌++◌, ◌==◌, if◌then◌else◌, reverse}
use remote_codex.Transfer.{Kind, Stamp}
use remote_codex.Config.Text.{Text}

pub data Direction : Type 0 where
  upload download : Direction

pub data Status : Type 0 where
  queued paused preparing running reconnecting conflict completed cancelled : Status

pub data Choice : Type 0 where
  replace keep_both skip merge : Choice

pub record Conflict : Type 0 where
  pub path : Text
  pub source : Kind
  pub destination : Kind
  pub expected : Stamp

pub record Transfer : Type 0 where
  pub id : String
  pub name : String
  pub server : String
  pub workspace : String
  pub direction : Direction
  pub destination : Text
  pub status : Status
  pub bytes : ℕ
  pub total : ℕ
  pub files : ℕ
  pub completed : ℕ
  pub skipped : ℕ
  pub message : Option Text
  pub error_code : Option String
  pub conflict : Option Conflict
  pub active : Bool
  pub owned : Bool

pub record RootIdentity : Type 0 where
  pub device : ℕ
  pub inode : ℕ

pub record Grant : Type 0 where
  pub root : String
  pub device : ℕ
  pub inode : ℕ

pub record Source : Type 0 where
  pub root : ℕ
  pub path : Text

pub record Task : Type 0 where
  pub view : Transfer
  pub server_id : String
  pub grants : List Grant
  pub sources : List Source
  pub remote_identity : Option String
  pub remote_root : Option RootIdentity
  pub scanned : Bool
  pub cancel : Bool
  pub current : Option ℕ
  pub policy : Option Choice

pub record Item : Type 0 where
  pub index : ℕ
  pub parent : Option ℕ
  pub root : ℕ
  pub source : Text
  pub target : Text
  pub stamp : Stamp
  pub token : String
  pub expected : Option Stamp
  pub prepared : Bool
  pub bytes : ℕ
  pub done : Bool
  pub skipped : Bool
  pub choice : Option Choice
  pub restart : Bool
  pub restage : Bool

-- `trim_end_matches('/')`, from the last character on.
abbrev drop_slashes : Text → Text
drop_slashes [] = []
drop_slashes (c ∷ t) = if c == b'/' then drop_slashes t else c ∷ t

abbrev pub trim_end_slashes : Text → Text
trim_end_slashes t = reverse (drop_slashes (reverse t))

abbrev joined : Text → Text → Text
joined [] name = name
joined (c ∷ parent) name = trim_end_slashes (c ∷ parent) ++ (b'/' ∷ name)

unfoldable pub join : Text → Text → Text
join parent name = joined parent name
