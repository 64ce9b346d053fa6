-- ===== src/Transfer/Staging/Publication.antt =====
-- The end of `commit` of crates/transfer/src/staging.rs, on every schedule: what it puts in place.
use mathlib.Core.Path.{subst}
use text.Mathlib.Text.{◌==◌ as str_eq}
use text.Mathlib.TextEquality.{eq_iff}
use remote_codex.Base.{
  ◌%◌, min, ◌≡◌, refl, sym, ap, ◌∙◌, ◌⊎◌, inl, inr, String, Bool, true, false, Option, none, some,
  List, ◌∷◌, ok, err, is_some, if◌then◌else◌, arith,
}
use remote_codex.Transfer.{Stamp, transfer_io, transfer_conflict, done}
use remote_codex.Transfer.World.{
  Meta, File, Node, Journal, Stage, Publication, World, ◌>>=◌, ◌>>◌, pure, tick, modified, u64_max,
}
use remote_codex.Transfer.Triples.{Triple, Outcome, bind, seq, conseq, pure_lem}
use remote_codex.Transfer.Stages.{Endpoint, parent, find_stamp, require, save}
use remote_codex.Transfer.Stages.Rules.{
  View, Held, Overall, Implies, Held-Overall, find_stamp_lem, parent_lem,
}
use remote_codex.Transfer.Stages.Holding.{
  held, held_tick, held-require, held_check, held_map, hold_fact, held_content, held_on_content,
  save_rule,
}
use remote_codex.Transfer.Inspect.{with_mode, with_times, on_meta, content_metadata}
use remote_codex.Transfer.Inspect.Quiet.{hash_file_lem}
use remote_codex.Transfer.Staging.{allows, stamps_eq, rename_file, renamed, publish, finish}

module _ {K I : View} (weak : Implies K I) (K' : View) (replacing : Bool)
    (step : (f : File) (st : Option Journal) (l : List Publication) (old : Option Node)
      → allows replacing old ≡ true
      → K (some f) st l
      → K' none st (record { replaced = old; placed = f } ∷ l)) where
  rename_file_outcome :
      (b : Bool) (f : File) (x : Stage) (w : World)
      → allows replacing w.entry ≡ b
      → K (some f) x.state w.published
      → Outcome {A = Unit {0}}
          (λ _. Held K')
          (Held K)
          (if b
            then (ok tt, renamed f (record w { stage = some (record x { content = some f }) }))
            else (err transfer_io, record w { stage = some (record x { content = some f }) }))
  rename_file_outcome true f x w e p = step f x.state w.published w.entry e p
  rename_file_outcome false f x w e p = p

  rename_content_outcome :
      (c : Option File) (x : Stage) (w : World)
      → K c x.state w.published
      → Outcome {A = Unit {0}}
          (λ _. Held K')
          (Held K)
          (rename_file replacing c (record w { stage = some (record x { content = c }) }))
  unfolding rename_file
  rename_content_outcome none x w p = p
  rename_content_outcome (some f) x w p =
      rename_file_outcome (allows replacing w.entry) f x w refl p

  rename_outcome :
      (s : Option Stage) (w : World)
      → Held K s w.published
      → Outcome {A = Unit {0}}
          (λ _. Held K')
          (Held K)
          (rename_file replacing
            (elim s [ none ↦ none | some x ↦ x.content ])
            (record w { stage = s }))
  rename_outcome none w p = absurd p
  rename_outcome (some x) w p = rename_content_outcome x.content x w p

  pub publish_rule : Triple (Held K) (publish replacing) (λ _. Held K') (Overall I)
  unfolding publish
  publish_rule =
      seq (Held K) (held_tick weak) (held weak (record { run = λ w p. rename_outcome w.stage w p }))

-- What one commit may have added to the publications.
pub record Published (h : Endpoint) (j : Journal) (named : String) (earlier : List Publication)
    (l : List Publication) : Type 0 where
  pub last : Publication
  pub added : l ≡ last ∷ earlier
  pub checked : h.digest last.placed.bytes ≡ named
  pub permitted : allows (is_some j.expected) last.replaced ≡ true
  pub mode : last.placed.meta.mode ≡ j.source.mode % 512
  pub time : modified last.placed.meta ≡ min u64_max j.source.modified_ns

module _ (h : Endpoint) (j0 : Journal) (named : String) (earlier : List Publication) where
  -- Before and after.
  abbrev pub Before : View
  Before c st l = (l ≡ earlier) × (st ≡ some j0)

  abbrev pub Settled : View
  Settled c st l = (l ≡ earlier) ⊎ Published h j0 named earlier l

  abbrev pub Unpublished : Journal → View
  Unpublished j c st l = (l ≡ earlier) × (j.source ≡ j0.source) × (j.expected ≡ j0.expected)

  pub Unpublished-Settled : (j : Journal) → Implies (Unpublished j) Settled
  Unpublished-Settled j c st l p = inl p.0

  abbrev Holds : (File → Type 0) → Option File → Type 0
  Holds P none = Unit
  Holds P (some f) = P f

  -- The staged file has the digest, then the mode, then the time that the commit demands.
  abbrev IsChecked : File → Type 0
  IsChecked f = h.digest f.bytes ≡ named

  abbrev HasMode : Journal → File → Type 0
  HasMode j f = IsChecked f × (f.meta.mode ≡ j.source.mode % 512)

  abbrev HasTime : Journal → File → Type 0
  HasTime j f = HasMode j f × (modified f.meta ≡ min u64_max j.source.modified_ns)

  abbrev Dressed : Journal → (File → Type 0) → View
  Dressed j P c st l = Unpublished j c st l × Holds P c

  Dressed-Settled : (j : Journal) (P : File → Type 0) → Implies (Dressed j P) Settled
  Dressed-Settled j P c st l p = inl p.0.0

  modified-with_times :
      (s : Stamp) (m : Meta) → modified (with_times s m) ≡ min u64_max s.modified_ns
  modified-with_times s m = omega arith

  metadata_rule :
      (j : Journal)
      → Triple
          (Held (Dressed j IsChecked))
          (content_metadata j.source)
          (λ _. Held (Dressed j (HasTime j)))
          (Overall Settled)
  unfolding content_metadata
  metadata_rule j =
      seq (Held (Dressed j (HasMode j)))
        (held_on_content (Dressed-Settled j _) _ (on_meta (with_mode j.source))
          (λ f st l p. (p.0, (p.1, refl))) (λ st l p. p))
        (seq (Held (Dressed j (HasTime j)))
          (held_on_content (Dressed-Settled j _) _ (on_meta (with_times j.source))
            (λ f st l p. (p.0, (p.1, modified-with_times j.source f.meta))) (λ st l p. p))
          (held_tick (Dressed-Settled j _)))

  hashed :
      (j : Journal) (f : File) (d : String) (c : Option File) (st : Option Journal)
      (l : List Publication)
      → (((Unpublished j c st l × (c ≡ some f)) × (d ≡ h.digest f.bytes)) × (str_eq d named ≡ true))
      → Dressed j IsChecked c st l
  hashed j f d c st l (((p, here), same), e) =
      (p, subst (Holds IsChecked) (sym here) (sym same ∙ (eq_iff d named).0 e))

  abbrev pub Placed : View
  Placed c st l = Published h j0 named earlier l

  place :
      (j : Journal) (f : File) (st : Option Journal) (l : List Publication) (old : Option Node)
      → allows (is_some j.expected) old ≡ true
      → Dressed j (HasTime j) (some f) st l
      → Placed none st (record { replaced = old; placed = f } ∷ l)
  place j f st l old e ((same, src, exp), (((checked), mode), time)) = record {
    last = record { replaced = old; placed = f };
    added = ap (◌∷◌ (record { replaced = old; placed = f })) same;
    checked = checked;
    permitted = subst (λ x. allows (is_some x) old ≡ true) exp e;
    mode = mode ∙ ap (λ s. s.mode % 512) src;
    time = time ∙ ap (λ s. min u64_max s.modified_ns) src;
  }

  pub finish_rule :
      (j : Journal)
      → Triple (Held (Unpublished j)) (finish h j named) (λ _. Overall Placed) (Overall Settled)
  unfolding finish
  finish_rule j =
      let weak = Unpublished-Settled j in
      let checked : Journal = record j { digest = some named } in
      bind (λ _. Held (Unpublished j)) (held weak (find_stamp_lem h))
        (λ found. seq (Held (Unpublished j)) (held_check weak _ _) (
          bind _ (held_content weak) (λ f.
            let Open : View = λ c st l. Unpublished j c st l × (c ≡ some f) in
            let open_weak : Implies Open Settled = λ c st l p. inl p.0.0 in
            bind (λ d. Held (λ c st l. Open c st l × (d ≡ h.digest f.bytes)))
              (held open_weak (conseq (λ d. hold_fact Open _) (hash_file_lem h f)))
              (λ d.
                seq (Held (Dressed j IsChecked))
                  (conseq (λ _. held_map _ _ (hashed j f d))
                    (held-require {I = Settled} (λ c st l p. inl p.0.0.0) _ _))
                  (seq (Held (Dressed j (HasTime j))) (metadata_rule j) (
                    seq (Held (Dressed checked (HasTime checked)))
                      (save_rule (Dressed-Settled j _) (Dressed-Settled checked _) checked
                        (λ c st l p. p))
                      (publish_part checked)))))))
    where
      publish_part :
          (checked : Journal)
          → Triple
              (Held (Dressed checked (HasTime checked)))
              (parent h
                >> (find_stamp h >>= λ again.
                    (require (stamps_eq again checked.expected) transfer_conflict
                      >> (publish (is_some checked.expected)
                          >> (tick >> (save (record checked { committed = true }) >> pure done))))))
              (λ _. Overall Placed)
              (Overall Settled)
      publish_part checked =
          let weak = Dressed-Settled checked (HasTime checked) in
          seq _ (held weak (parent_lem h)) (
            bind (λ _. Held (Dressed checked (HasTime checked))) (held weak (find_stamp_lem h))
              (λ again. seq _ (held_check weak _ _) (
                seq (Held Placed)
                  (publish_rule weak Placed (is_some checked.expected) (place checked))
                  (seq (Held Placed) (held_tick {K = Placed} {I = Settled} (λ c st l p. inr p)) (
                    seq (Held Placed)
                      (save_rule {K = Placed} {K' = Placed} {I = Settled} (λ c st l p. inr p)
                        (λ c st l p. inr p) _ (λ c st l p. p))
                      (pure_lem done (Held-Overall {K = Placed} {I = Placed} (λ c st l p. p))))))))
