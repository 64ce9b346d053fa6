-- ===== src/Client/Conflict/Consent.antt =====
-- What a user has agreed to, for crates/client/src/transfers/conflict.rs.
use mathlib.Core.Path.{subst}
use remote_codex.Base.{
  ◌≡◌, refl, ap, Bool, true, false, not, ◌&&◌, Option, none, some, if◌then◌else◌, is_some, arith,
}
use remote_codex.Transfer.{Kind, file, directory, unsupported, Stamp, stamp_eq}
use remote_codex.Client.Tasks.{Task, Item, Conflict, Choice, replace, keep_both, skip, merge}
use remote_codex.Client.Conflict.{filtered, or_else, differs, allowed}

abbrev both_files : (here there : Kind) → Bool
both_files file file = true
both_files _ _ = false

abbrev both_directories : (here there : Kind) → Bool
both_directories directory directory = true
both_directories _ _ = false

-- What a choice does with what is there: a file takes the place of a file, a directory is merged
-- into a directory, and the two others do with anything.
abbrev pub suits : (here there : Kind) → Choice → Bool
suits here there replace = both_files here there
suits here there merge = both_directories here there
suits here there keep_both = true
suits here there skip = true

abbrev pub overwrites : Choice → Bool
overwrites replace = true
overwrites merge = true
overwrites _ = false

-- The user has chosen this for the item, and was asked about no other stamp; or has chosen nothing
-- for the item, and this for the whole transfer.
pub data Consents (own general : Option Choice) (asked_of : Option Conflict) (stamp : Stamp)
    (a : Choice) : Type 0 where
  for_item :
      own ≡ some a
      → ((conflict : Conflict) → asked_of ≡ some conflict → stamp_eq conflict.expected stamp ≡ true)
      → Consents own general asked_of stamp a
  for_all : own ≡ none → general ≡ some a → Consents own general asked_of stamp a

abbrev pub Consent : Task → Item → Stamp → Choice → Type 0
Consent task item stamp a = Consents item.choice task.policy task.view.conflict stamp a

pub allowed-suits : (here there : Kind) (a : Choice) → allowed here there a ≡ suits here there a
allowed-suits file file replace = refl
allowed-suits file directory replace = refl
allowed-suits file unsupported replace = refl
allowed-suits directory file replace = refl
allowed-suits directory directory replace = refl
allowed-suits directory unsupported replace = refl
allowed-suits unsupported file replace = refl
allowed-suits unsupported directory replace = refl
allowed-suits unsupported unsupported replace = refl
allowed-suits directory file merge = refl
allowed-suits directory directory merge = refl
allowed-suits directory unsupported merge = refl
allowed-suits file file merge = refl
allowed-suits file directory merge = refl
allowed-suits file unsupported merge = refl
allowed-suits unsupported file merge = refl
allowed-suits unsupported directory merge = refl
allowed-suits unsupported unsupported merge = refl
allowed-suits here there keep_both = refl
allowed-suits here there skip = refl

kept_when :
    (good : Bool) (b a : Choice)
    → (if good then some b else none) ≡ some a
    → (good ≡ true) × (b ≡ a)
kept_when true b a e = (refl, cc)
kept_when false b a e = absurd (cc)

same_choice : (b a : Choice) → ◌≡◌ {A = Option Choice} (some b) (some a) → b ≡ a
same_choice b a e = ap (λ o. elim o [ none ↦ b | some x ↦ x ]) e

same_conflict :
    (k conflict : Conflict) → ◌≡◌ {A = Option Conflict} (some k) (some conflict) → k ≡ conflict
same_conflict k conflict e = ap (λ o. elim o [ none ↦ k | some x ↦ x ]) e

module _ (p : Choice → Bool) (stamp : Stamp) where
  pub agreed :
      (own general : Option Choice) (asked_of : Option Conflict) (a : Choice)
      → (is_some own && differs asked_of stamp) ≡ false
      → filtered p (or_else own general) ≡ some a
      → Consents own general asked_of stamp a × (p a ≡ true)
  agreed none none asked_of a still e = absurd (cc)
  agreed none (some b) asked_of a still e =
      let (good, same) = kept_when (p b) b a e in
      (for_all refl (ap some same), subst (λ x. p x ≡ true) same good)
  agreed (some b) general none a still e =
      let (good, same) = kept_when (p b) b a e in
      (
        for_item (ap some same) (λ conflict none_asked. absurd (cc)),
        subst (λ x. p x ≡ true) same good,
      )
  agreed (some b) general (some k) a still e =
      let (good, same) = kept_when (p b) b a e in
      (
        for_item (ap some same) (λ conflict this.
            subst (λ (x : Conflict). stamp_eq x.expected stamp ≡ true)
              (same_conflict k conflict this) (unchanged (stamp_eq k.expected stamp) still)),
        subst (λ x. p x ≡ true) same good,
      )
    where
      unchanged : (b : Bool) → not b ≡ false → b ≡ true
      unchanged b e = ground arith

  rejected : (b : Choice) → (if p b then some b else none) ≡ none → p b ≡ false
  rejected b e = by_test (p b) e
    where
      by_test : (x : Bool) → (if x then some b else none) ≡ none → x ≡ false
      by_test true e = absurd (cc)
      by_test false e = refl

  pub turned_down :
      (own general : Option Choice) (asked_of : Option Conflict) (a : Choice)
      → filtered p (or_else own general) ≡ none
      → Consents own general asked_of stamp a
      → p a ≡ false
  turned_down none none asked_of a e (for_item same fits) = absurd (cc)
  turned_down none none asked_of a e (for_all gone same) = absurd (cc)
  turned_down none (some b) asked_of a e (for_item same fits) = absurd (cc)
  turned_down none (some b) asked_of a e (for_all gone same) =
      subst (λ x. p x ≡ false) (same_choice b a same) (rejected b e)
  turned_down (some b) general asked_of a e (for_item same fits) =
      subst (λ x. p x ≡ false) (same_choice b a same) (rejected b e)
  turned_down (some b) general asked_of a e (for_all gone same) = absurd (cc)

  pub outdated :
      (own general : Option Choice) (asked_of : Option Conflict) (a : Choice)
      → (is_some own && differs asked_of stamp) ≡ true
      → Consents own general asked_of stamp a
      → p a ≡ false
  outdated none general asked_of a e given = absurd (cc)
  outdated (some b) general none a e given = absurd (cc)
  outdated (some b) general (some k) a e (for_item same fits) =
      absurd (apart (stamp_eq k.expected stamp) e (fits k refl))
    where
      apart : (b : Bool) → not b ≡ true → b ≡ true → ⊥
      apart b e f = ground arith
  outdated (some b) general (some k) a e (for_all gone same) = absurd (cc)
