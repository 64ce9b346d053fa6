-- ===== src/Transfer/Staging/Keep.antt =====
-- `commit` and `cancel` of crates/transfer/src/staging.rs keep the checkpoint, on every schedule.
use mathlib.Core.Path.{subst}
use remote_codex.Base.{
  ℕ, ◌≡◌, refl, sym, String, Bool, true, false, Option, none, some, List, is_some,
}
use remote_codex.Transfer.{transfer_conflict, done}
use remote_codex.Transfer.World.{File, Journal, Publication, ◌>>=◌, ◌>>◌, pure, tick}
use remote_codex.Transfer.Triples.{
  Triple, bind, seq, conseq, pure_lem, tick_lem, gets_lem, call_lem,
}
use remote_codex.Transfer.Stages.{Endpoint, parent, find_stamp, require, save}
use remote_codex.Transfer.Stages.Rules.{
  View, Held, Overall, Implies, Held-Overall, find_stamp_lem, parent_lem, attempt_tick,
  stage_name_lem,
}
use remote_codex.Transfer.Stages.Holding.{
  held, held_tick, held_call, held_check, held_open, held_map, held_content_gone, held_on_content,
  save_rule,
}
use remote_codex.Transfer.Stages.Lock.{Opened, stage_rule}
use remote_codex.Transfer.Inspect.{content_metadata}
use remote_codex.Transfer.Inspect.Quiet.{hash_file_lem}
use remote_codex.Transfer.Staging.{
  stamps_eq, publish, finish, finish_gone, check_gone, commit, remove_stage, cancel,
}
use remote_codex.Transfer.Staging.Checkpoint.{Fits, in_memory}
use remote_codex.Transfer.Staging.Resume.{reconcile_rule}
use remote_codex.Transfer.Staging.Publication.{publish_rule}

module _ (sent : List ℕ) (h : Endpoint) where
  -- The journal in memory fits the staged file.
  abbrev Agrees : Journal → View
  Agrees j c st l = Fits sent c st l × Fits sent c (some j) l

  Agrees-Fits : (j : Journal) → Implies (Agrees j) (Fits sent)
  Agrees-Fits j c st l p = p.0

  Opened-Agrees : (j : Journal) → Implies (Opened (Fits sent) j) (Agrees j)
  Opened-Agrees j c st l p = (p.0, in_memory sent h c st j l p.1 p.0)

  abbrev Gone : View
  Gone c st l = c ≡ none

  Gone-Fits : Implies Gone (Fits sent)
  Gone-Fits c st l e = subst (λ o. Fits sent o st l) (sym e) tt

  metadata_keeps :
      (j : Journal)
      → Triple
          (Held (Agrees j))
          (content_metadata j.source)
          (λ _. Held (Agrees j))
          (Overall (Fits sent))
  unfolding content_metadata
  metadata_keeps j =
      let weak = Agrees-Fits j in
      seq (Held (Agrees j)) (held_on_content weak (Agrees j) _ (λ f st l p. p) (λ st l p. p)) (
        seq (Held (Agrees j)) (held_on_content weak (Agrees j) _ (λ f st l p. p) (λ st l p. p))
          (held_tick weak))

  publish_keeps :
      (checked : Journal)
      → Triple
          (Held (Agrees checked))
          (parent h
            >> (find_stamp h >>= λ again.
                (require (stamps_eq again checked.expected) transfer_conflict
                  >> (publish (is_some checked.expected)
                      >> (tick >> (save (record checked { committed = true }) >> pure done))))))
          (λ _. Overall (Fits sent))
          (Overall (Fits sent))
  publish_keeps checked =
      let weak = Agrees-Fits checked in
      seq _ (held weak (parent_lem h)) (
        bind (λ _. Held (Agrees checked)) (held weak (find_stamp_lem h))
          (λ again. seq _ (held_check weak _ _) (
            seq (Held Gone)
              (publish_rule weak Gone (is_some checked.expected) (λ f st l old e p. refl))
              (seq (Held Gone) (held_tick Gone-Fits) (
                seq (Held Gone) (save_rule Gone-Fits Gone-Fits _ (λ c st l p. p))
                  (pure_lem done (Held-Overall Gone-Fits)))))))

  finish-Keeps :
      (j : Journal) (named : String)
      → Triple (Held (Agrees j)) (finish h j named) (λ _. Overall (Fits sent)) (Overall (Fits sent))
  unfolding finish
  finish-Keeps j named =
      let weak = Agrees-Fits j in
      let checked : Journal = record j { digest = some named } in
      bind (λ _. Held (Agrees j)) (held weak (find_stamp_lem h))
        (λ found. seq (Held (Agrees j)) (held_check weak _ _) (
          bind (λ _. Held (Agrees j)) (held_open weak)
            (λ f.
              bind (λ _. Held (Agrees j)) (held weak (conseq (λ _ s l p. p.0) (hash_file_lem h f)))
                (λ d. seq (Held (Agrees j)) (held_check weak _ _) (
                  seq (Held (Agrees j)) (metadata_keeps j) (
                    seq (Held (Agrees checked))
                      (save_rule weak (Agrees-Fits checked) checked
                        (λ c st l p. (unchanged c l p.1, unchanged c l p.1)))
                      (publish_keeps checked)))))))
    where
      unchanged :
          (c : Option File) (l : List Publication)
          → Fits sent c (some j) l
          → Fits sent c (some (record j { digest = some named })) l
      unchanged none l p = tt
      unchanged (some f) l p = p

  finish_gone_keeps :
      (j : Journal) (named : String) (gone : Bool)
      → Triple
          (Held (Opened (Fits sent) j))
          (finish_gone h j named gone)
          (λ _. Overall (Fits sent))
          (Overall (Fits sent))
  unfolding finish_gone
  finish_gone_keeps j named true =
      seq (Held (Fits sent))
        (conseq (λ r. held_map _ _ (λ c st l p. p.0)) (reconcile_rule sent h j))
        (pure_lem done (Held-Overall (λ c st l p. p)))
  finish_gone_keeps j named false = record {
    run =
        λ w p. (finish-Keeps j named).run w (held_map _ _ (Opened-Agrees j) w.stage w.published p);
  }

  check_gone_keeps :
      (j : Journal) (published : Bool)
      → Triple
          (Held (Opened (Fits sent) j))
          (check_gone h published)
          (λ _. Held (Opened (Fits sent) j))
          (Overall (Fits sent))
  unfolding check_gone
  check_gone_keeps j true = held_content_gone (λ c st l p. p.0)
  check_gone_keeps j false = pure_lem false (λ s l p. p)

  pub commit_keeps :
      (named : String)
      → Triple
          (Overall (Fits sent))
          (commit h named)
          (λ _. Overall (Fits sent))
          (Overall (Fits sent))
  unfolding commit
  commit_keeps named =
      bind _ (stage_rule (Fits sent) h none (λ j e. absurd (cc)))
        (λ j. bind _ (check_gone_keeps j (is_some j.digest)) (finish_gone_keeps j named))

  remove_keeps :
      (missing : Bool)
      → Triple
          (Overall (Fits sent))
          (remove_stage h missing)
          (λ _. Overall (Fits sent))
          (Overall (Fits sent))
  unfolding remove_stage
  remove_keeps true = pure_lem done (λ s l p. p)
  remove_keeps false =
      seq (Held (Fits sent))
        (conseq (λ j. held_map _ _ (λ c st l p. p.0))
          (stage_rule (Fits sent) h none (λ j e. absurd (cc))))
        (seq (Held Gone)
          (held_call (λ c st l p. p) Gone (λ s. record s { content = none }) (λ s l p. refl))
          (seq (Held Gone) (held_call Gone-Fits Gone (λ s. record s { next = none }) (λ s l p. p)) (
            seq (Held Gone) (held_call Gone-Fits Gone (λ s. record s { state = none }) (λ s l p. p))
              (seq (Held Gone)
                (held_call Gone-Fits Gone (λ s. record s { lock = false }) (λ s l p. p))
                (seq (Overall (Fits sent))
                  (held Gone-Fits (call_lem (λ w. record w { stage = none }) (λ w p. tt)))
                  (seq (Overall (Fits sent)) tick_lem (pure_lem done (λ s l p. p))))))))

  pub cancel_keeps :
      Triple (Overall (Fits sent)) (cancel h) (λ _. Overall (Fits sent)) (Overall (Fits sent))
  unfolding cancel
  cancel_keeps =
      let K = Overall (Fits sent) in
      seq K (parent_lem h) (
        seq K (stage_name_lem h) (
          bind (λ _. K) attempt_tick
            (λ looked. bind (λ _. K) (gets_lem _) (λ found. remove_keeps _))))
