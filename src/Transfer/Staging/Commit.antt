-- ===== src/Transfer/Staging/Commit.antt =====
-- `commit` of crates/transfer/src/staging.rs, on every schedule: what it has put in place when it
-- fails, and when it answers.
use remote_codex.Base.{
  ◌≡◌, sym, ap, ◌∙◌, ◌⊎◌, inl, inr, String, Bool, true, false, Option, none, some, List, is_some,
  ◌&&◌, ◌==◌, length, arith,
}
use text.Mathlib.TextEquality.{eq_iff}
use remote_codex.Transfer.{Stamp, done, file, kind_eq}
use remote_codex.Transfer.World.{File, Journal, Stage, Publication}
use remote_codex.Transfer.Triples.{Triple, bind, seq, conseq, from, pure_lem}
use remote_codex.Transfer.Stages.{Endpoint}
use remote_codex.Transfer.Stages.Rules.{
  View, Held, Overall, Implies, Held-Overall, relax, find_stamp_lem,
}
use remote_codex.Transfer.Stages.Holding.{
  held, held-require, hold_fact, held_taken, held_map, held_content_gone, save_rule,
}
use remote_codex.Transfer.Stages.Lock.{Opened, stage_rule}
use remote_codex.Transfer.Inspect.Quiet.{Hashed, hash_checked}
use remote_codex.Transfer.Staging.{digests_eq, reconcile, check_gone, finish_gone, commit}
use remote_codex.Transfer.Staging.Publication.{
  Published, Before, Settled, Unpublished, Unpublished-Settled, Placed, finish_rule,
}

-- A regular file of the source's length, with the digest that the journal has.
pub record Seen (h : Endpoint) (j : Journal) : Type 0 where
  pub file : File
  pub size : length file.bytes ≡ j.source.length
  pub known : j.digest ≡ some (h.digest file.bytes)

digests_eq-some : (d : String) (o : Option String) → digests_eq (some d) o ≡ true → o ≡ some d
digests_eq-some d none e = absurd (cc)
digests_eq-some d (some x) e = ap some (sym ((eq_iff d x).0 e))

found-Seen :
    (h : Endpoint) (j : Journal) (s : Stamp) (d : String)
    → (kind_eq s.kind file && s.length == j.source.length) ≡ true
    → Hashed h s d
    → digests_eq (some d) j.digest ≡ true
    → Seen h j
found-Seen h j s d fits (f, same, is_digest) known = record {
  file = f;
  size = ground arith;
  known = digests_eq-some d j.digest known ∙ ap some is_digest;
}

Seen-as :
    (h : Endpoint) (j j0 : Journal)
    → j.source ≡ j0.source
    → j.digest ≡ j0.digest
    → Seen h j
    → Seen h j0
Seen-as h j j0 source digest seen = record {
  file = seen.file;
  size = seen.size ∙ ap (λ (s : Stamp). s.length) source;
  known = sym digest ∙ seen.known;
}

module _ (h : Endpoint) (j0 : Journal) (named : String) (earlier : List Publication) where
  abbrev Free : Journal → View
  Free = Unpublished h j0 named earlier

  -- The journal in memory is the one that the commit found.
  abbrev Found : Journal → View
  Found j c st l = Free j c st l × (j.digest ≡ j0.digest)

  -- What an answer means: the file is in place, by this commit or by one before.
  abbrev pub Reported : View
  Reported c st l = Published h j0 named earlier l ⊎ ((l ≡ earlier) × Seen h j0)

  abbrev End : View
  End = Settled h j0 named earlier

  Free-End : (j : Journal) → Implies (Free j) End
  Free-End = Unpublished-Settled h j0 named earlier

  -- Reconciling publishes nothing.
  module _ (P : List Publication → Type 0)
      (settled : (l : List Publication) → P l → l ≡ earlier) where
    abbrev Still : View
    Still c st l = P l

    reconcile-Seen :
        (j : Journal)
        → Triple (Held Still) (reconcile h j) (λ _. Held (λ c st l. P l × Seen h j)) (Overall End)
    unfolding reconcile
    reconcile-Seen j =
        let weak : Implies Still End = λ c st l p. inl (settled l p) in
        bind (λ _. Held Still) (held weak (find_stamp_lem h))
          (λ found.
            bind (λ _. Held Still) (held_taken weak found _)
              (λ s.
                let Fits : View =
                  λ c st l. P l × ((kind_eq s.kind file && s.length == j.source.length) ≡ true) in
                let fits : Implies Fits End = λ c st l p. weak c st l p.0 in
                seq (Held Fits) (held-require weak _ _) (
                  bind (λ d. Held (λ c st l. Fits c st l × Hashed h s d))
                    (held fits (conseq (λ d. hold_fact Fits (Hashed h s d)) (hash_checked h s)))
                    (λ d.
                      let Read : View = λ c st l. Fits c st l × Hashed h s d in
                      let read : Implies Read End = λ c st l p. fits c st l p.0 in
                      seq (Held (λ c st l. Read c st l × (digests_eq (some d) j.digest ≡ true)))
                        (held-require read _ _)
                        (seq (Held (λ c st l. P l × Seen h j))
                          (save_rule (λ c st l p. read c st l p.0) (λ c st l p. weak c st l p.0) _
                            (λ c st l p. (p.0.0.0, found-Seen h j s d p.0.0.1 p.0.1 p.1)))
                          (pure_lem _ (λ s l p. p)))))))

  opened_journal : (j : Journal) → Implies (Opened (Before h j0 named earlier) j) (Found j)
  opened_journal j c st l ((same, first), second) =
      let e : some j0 ≡ some j = sym first ∙ second in
      ((same, ap source_of (sym e), ap expected_of (sym e)), ap digest_of (sym e))
    where
      source_of : Option Journal → Stamp
      source_of none = j.source
      source_of (some x) = x.source

      expected_of : Option Journal → Option Stamp
      expected_of none = none
      expected_of (some x) = x.expected

      digest_of : Option Journal → Option String
      digest_of none = none
      digest_of (some x) = x.digest

  finish_gone_rule :
      (j : Journal) (gone : Bool)
      → Triple (Held (Found j)) (finish_gone h j named gone) (λ _. Overall Reported) (Overall End)
  unfolding finish_gone
  finish_gone_rule j true =
      let Same : List Publication → Type 0 =
        λ l. (l ≡ earlier) × ((j.source ≡ j0.source) × (j.digest ≡ j0.digest)) in
      from (held_map _ (λ c st l. Same l) (λ c st l p. (p.0.0, (p.0.1, p.1)))) (
        seq (Held (λ c st l. Same l × Seen h j)) (reconcile-Seen Same (λ l p. p.0) j) (
          pure_lem done (
            Held-Overall {I = Reported}
              (λ c st l p. inr (p.0.0, Seen-as h j j0 p.0.1.0 p.0.1.1 p.1)))))
  finish_gone_rule j false =
      from (held_map _ (Free j) (λ c st l p. p.0))
        (conseq (λ _ s l. published s l) (finish_rule h j0 named earlier j))
    where
      published :
          (s : Option Stage) (l : List Publication)
          → Overall (Placed h j0 named earlier) s l
          → Overall Reported s l
      published none l p = inl p
      published (some s) l p = inl p

  check_gone_rule :
      (j : Journal) (b : Bool)
      → Triple (Held (Found j)) (check_gone h b) (λ gone. Held (Found j)) (Overall End)
  unfolding check_gone
  check_gone_rule j false = pure_lem false (λ s l p. p)
  check_gone_rule j true = held_content_gone {K = Found j} {I = End} (λ c st l p. inl p.0.0)

  Before-End :
      (s : Option Stage) (l : List Publication)
      → Overall (Before h j0 named earlier) s l
      → Overall End s l
  Before-End none l p = inl p.0
  Before-End (some s) l p = inl p.0

  pub commit_rule :
      Triple
        (Overall (Before h j0 named earlier))
        (commit h named)
        (λ _. Overall Reported)
        (Overall End)
  unfolding commit
  commit_rule =
      bind (λ j. Held (Found j))
        (conseq (λ j. held_map _ _ (opened_journal j))
          (relax Before-End (stage_rule (Before h j0 named earlier) h none (λ j e. absurd (cc)))))
        (λ j.
          bind (λ _. Held (Found j)) (check_gone_rule j (is_some j.digest)) (finish_gone_rule j))
