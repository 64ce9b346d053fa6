-- ===== src/Transfer.antt =====
-- The transfer protocol's data, crates/protocol/src/transfer.rs, and the fault codes of
-- crates/transfer/src. Texts that the code only compares (paths, tokens, owners, digests) are
-- `String`s; the message beside a fault code is left out.
pub mod Paths
pub mod World
pub mod Stages
pub mod Inspect
pub mod Staging
pub mod Endpoint
pub mod Triples
mod Tests
use remote_codex.Base.{ℕ, String, Bool, true, false, ◌&&◌, Option, none, some, List, ◌==◌}

-- 256 KiB.
abbrev pub chunk : ℕ
chunk = 262144

pub data Kind : Type 0 where
  file directory unsupported : Kind

pub record Stamp : Type 0 where
  pub kind : Kind
  pub length : ℕ
  pub modified_ns : ℕ
  pub device : ℕ
  pub inode : ℕ
  pub mode : ℕ

abbrev pub kind_eq : Kind → Kind → Bool
kind_eq file file = true
kind_eq directory directory = true
kind_eq unsupported unsupported = true
kind_eq _ _ = false

abbrev pub stamp_eq : Stamp → Stamp → Bool
stamp_eq a b =
    kind_eq a.kind b.kind
    && (a.length == b.length
        && (a.modified_ns == b.modified_ns
            && (a.device == b.device && (a.inode == b.inode && a.mode == b.mode))))

abbrev pub option_eq : {A : Type 0} → (A → A → Bool) → Option A → Option A → Bool
option_eq eq none none = true
option_eq eq (some a) (some b) = eq a b
option_eq eq _ _ = false

pub data Fault : Type 0 where
  transfer_io transfer_path transfer_type transfer_token transfer_busy transfer_missing
        transfer_owner transfer_source_changed transfer_conflict transfer_checkpoint
        transfer_checksum transfer_cancelled transfer_offset transfer_packet :
      Fault

pub record Entry : Type 0 where
  pub name : String
  pub stamp : Stamp

pub record Page : Type 0 where
  pub entries : List Entry
  pub after : Option String

pub data Reply : Type 0 where
  stat : Option Stamp → Reply
  listing : Page → Reply
  ready : (offset : ℕ) (complete : Bool) → Reply
  block : (digest : String) → Reply
  hash : (digest : String) → Reply
  done : Reply
