-- ===== src/Client/Copy/Rounds.antt =====
-- The loop of crates/client/src/transfers/copy.rs, whatever the peers answer: each round moves one
-- block on, and the loop ends by its own test.
use mathlib.Core.Path.{subst}
use package.text.Mathlib.Text.{◌==◌ as str_eq}
use remote_codex.Base.{
  ℕ, zero, suc, ◌+◌, ◌≤◌, ◌≡◌, ◌≢◌, refl, sym, ap, ◌∙◌, String, Bool, true, false, not, ◌&&◌, List,
  [], ◌∷◌, ok, ltb, ◌==◌, length, length-append, all, arith,
}
use remote_codex.Transfer.{Reply, ready, block}
use remote_codex.Exec.{◌>>◌, pure, modify}
use remote_codex.Exec.Triples.{
  Outcome, Triple, bind, seq, conseq, weaken, pure_lem, modify_lem, if_lem, known, bind_known,
  require_then, gets_then,
}
use remote_codex.Client.Tasks.{Item}
use remote_codex.Client.Peers.{reads, writes, Outside, Exchange, Client, keep_item}
use remote_codex.Client.Peers.Rules.{call_lem, keep_item_lem}
use remote_codex.Client.Copy.{advanced, copy_block, copy_blocks}
use remote_codex.Client.Copy.Calls.{
  Block, asked, read_from, written_to, copied, bytes_of, is_intact, fixed, as_ready_lem,
  as_block_lem, Stands, Any,
}

module _ {W : Type 0} where
  module _ (o : Outside W) (digest_of : List ℕ → String) (item : Item) where
    -- One round has read and written one intact block.
    abbrev Moved : ℕ → List Exchange → ℕ → Client W → Type 0
    Moved offset h to c =
        (b : Block) × (to ≡ offset + length b.bytes)
        × (is_intact digest_of b ≡ true)
        × (ltb item.stamp.length to ≡ false)
        × Stands item (written_to item offset b ∷ read_from item offset b ∷ h) c

    -- After the last test of a round.
    kept :
        {h : List Exchange} {offset : ℕ} (r : Reply × List ℕ) (d : String) (x : Reply × List ℕ)
        (n : ℕ × Bool)
        → r.0 ≡ block d
        → not (length r.1 == 0) && str_eq (digest_of r.1) d ≡ true
        → x.0 ≡ ready n.0 n.1
        → not n.1 ≡ true
        → n.0 == offset + length r.1 && not (ltb item.stamp.length n.0) ≡ true
        → Triple
            (Stands item (
              asked false (writes item.target item.token offset d) r.1 x.0 x.1
              ∷ asked true (reads item.source item.stamp offset) [] r.0 r.1
              ∷ h))
            (modify (advanced n.0 (length r.1)) >> (keep_item o >> pure n.0))
            (Moved offset h)
            Any
    kept {h} {offset} r d x n is_block intact is_ready going confirmed =
        let reached : n.0 ≡ offset + length r.1 = ground arith in
        let unfinished : n.1 ≡ false = ground arith in
        let replied : x.0 ≡ ready (offset + length r.1) false =
          is_ready ∙ (λ i. ready (reached i) (unfinished i)) in
        let calls : List Exchange =
          asked false (writes item.target item.token offset d) r.1 x.0 x.1
          ∷ asked true (reads item.source item.stamp offset) [] r.0 r.1
          ∷ h in
        seq (Stands item calls) (modify_lem _ (λ c p. p)) (
          seq (Stands item calls) (keep_item_lem o (λ c w p. p) (λ c w p. tt)) (
            pure_lem n.0 (λ c p. (
              record { bytes = r.1; digest = d; extra = x.1 },
              reached,
              intact,
              ground arith,
              (
                p.0,
                p.1 ∙ (λ i.
                    asked false (writes item.target item.token offset d) r.1 (replied i) x.1
                    ∷ asked true (reads item.source item.stamp offset) [] (is_block i) r.1
                    ∷ h),
              ),
            ))))

    copy_block_lem :
        (offset : ℕ) (h : List Exchange)
        → Triple (Stands item h) (copy_block o digest_of offset) (Moved offset h) Any
    unfolding copy_block
    copy_block_lem offset h =
        gets_then (λ c. c.item)
          (λ it.
            weaken (λ c p. (ap fixed p.1 ∙ p.0.0, p.0))
              (known (λ (same : fixed it ≡ item).
                bind
                  (λ r.
                    Stands item (asked true (reads item.source item.stamp offset) [] r.0 r.1 ∷ h))
                  (call_lem o true it.root (reads it.source it.stamp offset) []
                    (λ c w a p. (
                      p.0,
                      λ i.
                          asked true (reads (same i).source (same i).stamp offset) [] a.0 a.1
                          ∷ p.1 i,
                    ))
                    (λ c w e p. tt))
                  (λ r. bind_known (as_block_lem r.0 (λ c p. tt)) (λ d is_block.
                    require_then _ _ (λ c p. tt)
                      (λ intact.
                        bind
                          (λ x. Stands item (
                            asked false (writes item.target item.token offset d) r.1 x.0 x.1
                            ∷ asked true (reads item.source item.stamp offset) [] r.0 r.1
                            ∷ h))
                          (call_lem o false it.root (writes it.target it.token offset d) r.1
                            (λ c w a p. (
                              p.0,
                              λ i.
                                  asked false (writes (same i).target (same i).token offset d) r.1
                                    a.0 a.1
                                  ∷ p.1 i,
                            ))
                            (λ c w e p. tt))
                          (λ x. bind_known (as_ready_lem x.0 (λ c p. tt)) (λ n is_ready.
                            require_then _ _ (λ c p. tt)
                              (λ going.
                                require_then _ _ (λ c p. tt)
                                  (λ confirmed. kept r d x n is_block intact is_ready going (
                                    ap
                                      (λ i.
                                        n.0 == offset + length r.1 && not (ltb i.stamp.length n.0))
                                      (sym same)
                                    ∙ confirmed)))))))))))

    -- The loop has ended by its test, with blocks in a row up to the source's length.
    abbrev pub Reached : ℕ → List Exchange → Client W → Type 0
    Reached offset h c =
        (bs : List Block) × (offset + length (bytes_of bs) ≡ item.stamp.length)
        × (all (is_intact digest_of) bs ≡ true)
        × Stands item (copied item offset bs h) c

    Reached-one_more :
        (offset : ℕ) (h : List Exchange) (b : Block) (c : Client W)
        → is_intact digest_of b ≡ true
        → Reached
            (offset + length b.bytes)
            (written_to item offset b ∷ read_from item offset b ∷ h)
            c
        → Reached offset h c
    unfolding copied
    Reached-one_more offset h b c intact (bs, at, good, stands) =
        (b ∷ bs, omega (arith, length-append b.bytes (bytes_of bs)), ground arith, stands)

    at_end :
        (offset : ℕ) (h : List Exchange) (it : Item)
        → ltb offset it.stamp.length ≡ false
        → fixed it ≡ item
        → offset ≤ item.stamp.length
        → (c : Client W) → Stands item h c
        → Reached offset h c
    unfolding copied
    at_end offset h it past same low c p =
        let short : ltb offset item.stamp.length ≡ false =
          ap (λ i. ltb offset i.stamp.length) (sym same) ∙ past in
        ([], ground arith, refl, p)

    -- The condition after the loop from an offset on.
    abbrev pub Ends : ℕ → List Exchange → Bool → Client W → Type 0
    Ends offset h finished c = (finished ≡ true) × Reached offset h c

    continues :
        (fuel offset : ℕ) (h : List Exchange) (to : ℕ) (c : Client W)
        → item.stamp.length ≤ suc fuel + offset
        → ((n : ℕ) (h : List Exchange)
            → item.stamp.length ≤ fuel + n
            → n ≤ item.stamp.length
            → Triple (Stands item h) (copy_blocks o digest_of fuel n) (Ends n h) Any)
        → Moved offset h to c
        → Outcome (Ends offset h) Any (copy_blocks o digest_of fuel to c)
    continues fuel offset h to c enough rest (b, at, intact, short, stands) =
        let next =
          rest (offset + length b.bytes) (written_to item offset b ∷ read_from item offset b ∷ h)
            (ground arith) (ground arith) in
        subst (λ n. Outcome (Ends offset h) Any (copy_blocks o digest_of fuel n c)) (sym at)
          ((conseq (λ finished c e. (e.0, Reached-one_more offset h b c intact e.1)) next).run c
            stands)

    pub copy_blocks_lem :
        (fuel offset : ℕ) (h : List Exchange)
        → item.stamp.length ≤ fuel + offset
        → offset ≤ item.stamp.length
        → Triple (Stands item h) (copy_blocks o digest_of fuel offset) (Ends offset h) Any
    unfolding copy_blocks
    copy_blocks_lem zero offset h enough low =
        gets_then (λ c. c.item)
          (λ it.
            weaken (λ c p. (ap fixed p.1 ∙ p.0.0, p.0))
              (known (λ (same : fixed it ≡ item).
                let past : ltb offset it.stamp.length ≡ false =
                  ap (λ i. ltb offset i.stamp.length) same ∙ ground arith in
                pure_lem _ (λ c p. (ap not past, at_end offset h it past same low c p)))))
    copy_blocks_lem (suc fuel) offset h enough low =
        gets_then (λ c. c.item)
          (λ it.
            weaken (λ c p. (ap fixed p.1 ∙ p.0.0, p.0))
              (known (λ (same : fixed it ≡ item).
                if_lem (ltb offset it.stamp.length) _ _
                  (λ more. bind (Moved offset h) (copy_block_lem offset h) (λ to. record {
                    run = λ c m. continues fuel offset h to c enough (copy_blocks_lem fuel) m;
                  }))
                  (λ past. pure_lem true (λ c p. (refl, at_end offset h it past same low c p))))))

ended :
    {W : Type 0} (o : Outside W) (digest_of : List ℕ → String) (fuel offset : ℕ)
    (c after : Client W) (finished : Bool)
    → c.item.stamp.length ≤ fuel + offset
    → offset ≤ c.item.stamp.length
    → copy_blocks o digest_of fuel offset c ≡ (ok finished, after)
    → finished ≡ true
ended o digest_of fuel offset c after finished enough low e =
    let round =
      (copy_blocks_lem o digest_of (fixed c.item) fuel offset c.history enough low).run c
        (refl, refl) in
    (subst (Outcome (Ends o digest_of (fixed c.item) offset c.history) Any) e round).0

-- The loop never runs out of fuel where it has as much as bytes are left: each round that does not
-- fail has read one byte or more, whatever the peers answer.
pub copy_ends :
    {W : Type 0} (o : Outside W) (digest_of : List ℕ → String) (fuel offset : ℕ) (c : Client W)
    → c.item.stamp.length ≤ fuel + offset
    → offset ≤ c.item.stamp.length
    → (copy_blocks o digest_of fuel offset c).0 ≢ ok false
copy_ends o digest_of fuel offset c enough low spent = false_true (
    ended o digest_of fuel offset c (copy_blocks o digest_of fuel offset c).1 false enough low
      (ap (λ r. (r, (copy_blocks o digest_of fuel offset c).1)) spent))
  where
    false_true : false ≡ true → ⊥
    false_true same = cc
