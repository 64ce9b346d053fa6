-- ===== src/Client/Copy/Followed.antt =====
-- What a copy of crates/client/src/transfers/copy.rs that succeeds has sent and received, whatever
-- the peers answer.
use mathlib.Core.Path.{subst}
use remote_codex.Base.{
  ℕ, ◌≤◌, ◌≡◌, refl, sym, ap, ◌∙◌, ◌⊎◌, inl, inr, String, Bool, true, false, List, [], ◌∷◌, ok, ltb,
  arith,
}
use remote_codex.Transfer.{Reply}
use remote_codex.Exec.Triples.{
  Outcome, Triple, bind, seq, seq_value, conseq, weaken, pure_lem, modify_lem, known, bind_known,
  require_then, gets_then,
}
use remote_codex.Client.Tasks.{Item}
use remote_codex.Client.Peers.{prepares, hashes, commits, Outside, Exchange, Client}
use remote_codex.Client.Peers.Rules.{call_lem, keep_item_lem}
use remote_codex.Client.Copy.{copy_blocks, seal, send, file}
use remote_codex.Client.Copy.Calls.{
  asked, copied, prepared_with, hashed_as, committed, Sent, fixed, copied-fixed, as_ready_lem,
  as_hash_lem, Stands, Any,
}
use remote_codex.Client.Copy.Rounds.{Ends, copy_blocks_lem}

module _ {W : Type 0} (o : Outside W) (item : Item) where
  seal_lem :
      (h : List Exchange)
      → Triple
          (Stands item h)
          (seal o)
          (λ _ c.
            (d : String) × (extra : List ℕ) × (a : Reply × List ℕ) × Stands item
              (committed item d a ∷ hashed_as item d extra ∷ h)
              c)
          Any
  unfolding seal
  seal_lem h = seq (Stands item h) (modify_lem _ (λ c p. p)) (
      gets_then (λ c. c.item)
        (λ it.
          weaken (λ c p. (ap fixed p.1 ∙ p.0.0, p.0))
            (known (λ (same : fixed it ≡ item).
              bind (λ r. Stands item (asked true (hashes item.source item.stamp) [] r.0 r.1 ∷ h))
                (call_lem o true it.root (hashes it.source it.stamp) []
                  (λ c w a p. (
                    p.0,
                    λ i. asked true (hashes (same i).source (same i).stamp) [] a.0 a.1 ∷ p.1 i,
                  ))
                  (λ c w e p. tt))
                (λ r. bind_known (as_hash_lem r.0 (λ c p. tt)) (λ d is_hash.
                  let calls : List Exchange =
                    asked true (hashes item.source item.stamp) [] r.0 r.1 ∷ h in
                  seq_value (λ a. Stands item (committed item d a ∷ calls))
                    (call_lem o false it.root (commits it.target it.token d) []
                      (λ c w a p. (
                        p.0,
                        λ i.
                            asked false (commits (same i).target (same i).token d) [] a.0 a.1
                            ∷ p.1 i,
                      ))
                      (λ c w e p. tt))
                    (λ a. modify_lem _ (λ c p. (
                      d,
                      r.1,
                      a,
                      (
                        p.0,
                        p.1 ∙ (λ i.
                            committed item d a
                            ∷ asked true (hashes item.source item.stamp) [] (is_hash i) r.1
                            ∷ h),
                      ),
                    )))))))))

module _ {W : Type 0} (digest_of : List ℕ → String) (item : Item) where
  abbrev Finishes : Bool → ℕ → List Exchange → Client W → Type 0
  Finishes complete offset h c =
      ((complete ≡ true) × (c.history ≡ h))
      ⊎ ((complete ≡ false) × Sent digest_of item offset h c.history)

module _ {W : Type 0} (o : Outside W) (digest_of : List ℕ → String) (item : Item) where
  send_lem :
      (offset : ℕ) (complete : Bool) (h : List Exchange)
      → offset ≤ item.stamp.length
      → Triple
          (Stands item h)
          (send o digest_of offset complete)
          (λ _. Finishes digest_of item complete offset h)
          Any
  unfolding send
  send_lem offset true h low = pure_lem tt (λ c p. inl (refl, p.1))
  send_lem offset false h low =
      gets_then (λ c. c.item)
        (λ it.
          weaken (λ c p. (ap fixed p.1 ∙ p.0.0, p.0))
            (known (λ (same : fixed it ≡ item).
              seq_value (Ends o digest_of item offset h)
                (subst
                  (λ (n : ℕ).
                    Triple (Stands item h) (copy_blocks o digest_of n offset)
                      (Ends o digest_of item offset h) Any)
                  (ap (λ i. i.stamp.length) (sym same))
                  (copy_blocks_lem o digest_of item item.stamp.length offset h (omega arith) low))
                (λ finished. record {
                  run = λ c e.
                      let (bs, at, good, stands) = e.1 in
                      (conseq {Q = λ _. Finishes digest_of item false offset h}
                          (λ _ c s. inr (
                            refl,
                            record {
                              blocks = bs;
                              digest = s.0;
                              extra = s.1;
                              answer = s.2;
                              whole = at;
                              intact = good;
                              calls = s.3.1;
                            },
                          ))
                          (seal_lem o item (copied item offset bs h))).run
                        c stands;
                }))))

  -- Before the answer to `prepare` the item stands as it was.
  abbrev Prepared : List Exchange → Client W → Type 0
  Prepared h c =
      (offset : ℕ) × (complete : Bool) × (extra : List ℕ) × (offset ≤ item.stamp.length)
      × Finishes digest_of item complete offset (prepared_with item offset complete extra ∷ h) c

  file_lem : (h : List Exchange) → Triple (Stands item h) (file o digest_of) (λ _. Prepared h) Any
  unfolding file
  file_lem h = seq (Stands item h) (modify_lem _ (λ c p. p)) (
      seq (Stands item h) (keep_item_lem o (λ c w p. p) (λ c w p. tt)) (
        gets_then (λ c. c.item)
          (λ it.
            weaken (λ c p. (ap fixed p.1 ∙ p.0.0, p.0))
              (known (λ (same : fixed it ≡ item).
                bind
                  (λ r. Stands item (
                    asked false (prepares item.target item.token item.stamp item.expected) [] r.0
                      r.1
                    ∷ h))
                  (call_lem o false it.root (prepares it.target it.token it.stamp it.expected) []
                    (λ c w a p. (
                      p.0,
                      λ i.
                          asked false
                            (prepares (same i).target (same i).token (same i).stamp
                              (same i).expected)
                            [] a.0 a.1
                          ∷ p.1 i,
                    ))
                    (λ c w e p. tt))
                  (λ r. bind_known (as_ready_lem r.0 (λ c p. tt)) (λ n is_ready.
                    require_then _ _ (λ c p. tt)
                      (λ low.
                        let short : ltb item.stamp.length n.0 ≡ false =
                          ap (λ i. ltb i.stamp.length n.0) (sym same) ∙ ground arith in
                        let calls : List Exchange = prepared_with item n.0 n.1 r.1 ∷ h in
                        seq (Stands item calls)
                          (modify_lem _ (λ c p. (
                            p.0,
                            p.1 ∙ (λ i.
                                asked false
                                  (prepares item.target item.token item.stamp item.expected) []
                                  (is_ready i) r.1
                                ∷ h),
                          )))
                          (seq (Stands item calls) (keep_item_lem o (λ c w p. p) (λ c w p. tt)) (
                            conseq {Q = λ _. Prepared h} (λ _ c s. (n.0, n.1, r.1, ground arith, s))
                              (send_lem n.0 n.1 calls (ground arith))))))))))))

module _ {W : Type 0} (digest_of : List ℕ → String) where
  Finishes-fixed :
      (i : Item) (complete : Bool) (offset : ℕ) (h : List Exchange) (c : Client W)
      → Finishes digest_of (fixed i) complete offset h c
      → ((complete ≡ true) × (c.history ≡ h))
        ⊎ ((complete ≡ false) × Sent digest_of i offset h c.history)
  Finishes-fixed i complete offset h c (inl e) = inl e
  Finishes-fixed i complete offset h c (inr (e, s)) = inr (
    e,
    record {
      blocks = s.blocks;
      digest = s.digest;
      extra = s.extra;
      answer = s.answer;
      whole = s.whole;
      intact = s.intact;
      calls = s.calls ∙ (λ j.
          committed i s.digest s.answer
          ∷ hashed_as i s.digest s.extra
          ∷ copied-fixed i offset s.blocks h j);
    },
  )

-- A copy that succeeds has asked the destination's endpoint where to go on, at an offset within the
-- source's length. If it is not told that all is done, it has then read from the source and
-- written to the destination, in turn and with nothing in between, blocks in a row from that offset
-- up to the source's length, each with the digest that was named for it; and it has committed the
-- digest that the source's endpoint gave last. It has made no other call, whatever was answered.
pub copy_follows :
    {W : Type 0} (o : Outside W) (digest_of : List ℕ → String) (c after : Client W)
    → file o digest_of c ≡ (ok tt, after)
    → (offset : ℕ) × (complete : Bool) × (extra : List ℕ) × (offset ≤ c.item.stamp.length)
      × (let h = prepared_with c.item offset complete extra ∷ c.history in
          ((complete ≡ true) × (after.history ≡ h))
          ⊎ ((complete ≡ false) × Sent digest_of c.item offset h after.history))
copy_follows o digest_of c after e =
    let done = (file_lem o digest_of (fixed c.item) c.history).run c (refl, refl) in
    let (offset, complete, extra, low, finishes) =
      subst (Outcome (λ _. Prepared o digest_of (fixed c.item) c.history) Any) e done in
    (
      offset,
      complete,
      extra,
      low,
      Finishes-fixed digest_of c.item complete offset
          (prepared_with c.item offset complete extra ∷ c.history) after finishes,
    )
