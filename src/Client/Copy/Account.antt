-- ===== src/Client/Copy/Account.antt =====
-- What a copy of crates/client/src/transfers/copy.rs counts, however it ends.
use remote_codex.Base.{
  ℕ, zero, suc, ◌+◌, ◌≤◌, ◌≡◌, sym, ap, ◌∙◌, String, Bool, true, false, not, ◌&&◌, List, [], Result,
  ok, err, ltb, ◌==◌, length, arith,
}
use remote_codex.Transfer.World.{u64_max}
use remote_codex.Session.Errors.{ClientError}
use remote_codex.Exec.Triples.{
  Outcome, Triple, bind, seq, weaken, pure_lem, modify_lem, if_lem, bind_known, known, require_then,
  gets_then,
}
use remote_codex.Client.Tasks.{Item}
use remote_codex.Client.Peers.{Outside, Client, reads, writes, prepares, hashes, commits}
use remote_codex.Client.Peers.Rules.{call_lem, keep_item_lem}
use remote_codex.Client.Copy.{advanced, restarted, copy_block, copy_blocks, seal, send, file}
use remote_codex.Client.Copy.Calls.{as_ready_lem, as_block_lem, as_hash_lem}

-- The task's bytes are those of the item and those of the other items, and no more of an item is
-- counted than its source has.
abbrev pub Accounts : {W : Type 0} → (others size : ℕ) → Client W → Type 0
Accounts others size c =
    (c.task.view.bytes ≡ others + c.item.bytes)
    × (c.item.stamp.length ≡ size)
    × (c.item.bytes ≤ size)

module _ {W : Type 0} (o : Outside W) (digest_of : List ℕ → String) (others size : ℕ) where
  -- The item has come so far.
  abbrev Stood : ℕ → Client W → Type 0
  Stood offset c = Accounts others size c × (c.item.bytes ≡ offset)

  advance :
      (offset : ℕ) (n : ℕ × Bool) (bytes : List ℕ) (c : Client W)
      → n.0 == offset + length bytes && not (ltb size n.0) ≡ true
      → Stood offset c
      → Stood n.0 (advanced n.0 (length bytes) c)
  advance offset n bytes c confirmed s = ground arith

  copy_block_counts :
      (offset : ℕ)
      → Triple (Stood offset) (copy_block o digest_of offset) Stood (Accounts others size)
  unfolding copy_block
  copy_block_counts offset =
      gets_then (λ c. c.item)
        (λ it.
          weaken (λ c p. (ap (λ (i : Item). i.stamp.length) p.1 ∙ p.0.0.1, p.0))
            (known (λ (same : it.stamp.length ≡ size).
              bind (λ _. Stood offset)
                (call_lem o true it.root (reads it.source it.stamp offset) [] (λ c w a p. p)
                  (λ c w e p. p.0))
                (λ r. bind_known (as_block_lem r.0 (λ c p. p.0)) (λ d is_block.
                  require_then _ _ (λ c p. p.0)
                    (λ intact.
                      bind (λ _. Stood offset)
                        (call_lem o false it.root (writes it.target it.token offset d) r.1
                          (λ c w a p. p) (λ c w e p. p.0))
                        (λ x. bind_known (as_ready_lem x.0 (λ c p. p.0)) (λ n is_ready.
                          require_then _ _ (λ c p. p.0)
                            (λ going.
                              require_then _ _ (λ c p. p.0)
                                (λ confirmed.
                                  let in_size : n.0 == offset + length r.1 && not (ltb size n.0)
                                      ≡ true =
                                    ap (λ m. n.0 == offset + length r.1 && not (ltb m n.0))
                                      (sym same)
                                    ∙ confirmed in
                                  seq (Stood n.0)
                                    (modify_lem _ (λ c p. advance offset n r.1 c in_size p))
                                    (seq (Stood n.0) (keep_item_lem o (λ c w p. p) (λ c w p. p.0))
                                      (pure_lem n.0 (λ c p. p)))))))))))))

  copy_blocks_counts :
      (fuel offset : ℕ)
      → Triple
          (Stood offset)
          (copy_blocks o digest_of fuel offset)
          (λ _. Accounts others size)
          (Accounts others size)
  unfolding copy_blocks
  copy_blocks_counts zero offset = gets_then (λ c. c.item) (λ it. pure_lem _ (λ c p. p.0.0))
  copy_blocks_counts (suc fuel) offset =
      gets_then (λ c. c.item)
        (λ it.
          weaken (λ c p. p.0)
            (if_lem (ltb offset it.stamp.length) _ _
              (λ more. bind Stood (copy_block_counts offset) (copy_blocks_counts fuel))
              (λ past. pure_lem true (λ c p. p.0))))

  seal_counts :
      Triple (Accounts others size) (seal o) (λ _. Accounts others size) (Accounts others size)
  unfolding seal
  seal_counts = seq (Accounts others size) (modify_lem _ (λ c p. p)) (
      gets_then (λ c. c.item)
        (λ it.
          weaken (λ c p. p.0)
            (bind (λ _. Accounts others size)
              (call_lem o true it.root (hashes it.source it.stamp) [] (λ c w a p. p) (λ c w e p. p))
              (λ r. bind_known (as_hash_lem r.0 (λ c p. p)) (λ d is_hash.
                seq (Accounts others size)
                  (call_lem o false it.root (commits it.target it.token d) [] (λ c w a p. p)
                    (λ c w e p. p))
                  (modify_lem _ (λ c p. p)))))))

  send_counts :
      (offset : ℕ) (complete : Bool)
      → Triple
          (Stood offset)
          (send o digest_of offset complete)
          (λ _. Accounts others size)
          (Accounts others size)
  unfolding send
  send_counts offset true = pure_lem tt (λ c p. p.0)
  send_counts offset false =
      gets_then (λ c. c.item)
        (λ it.
          weaken (λ c p. p.0)
            (seq (Accounts others size) (copy_blocks_counts it.stamp.length offset) seal_counts))

  restart :
      (n : ℕ × Bool) (c : Client W)
      → others + size ≤ u64_max
      → not (ltb size n.0) ≡ true
      → Accounts others size c
      → Stood n.0 (restarted n.0 c)
  restart n c room low p = ground arith

  file_counts :
      others + size ≤ u64_max
      → Triple
          (Accounts others size)
          (file o digest_of)
          (λ _. Accounts others size)
          (Accounts others size)
  unfolding file
  file_counts room = seq (Accounts others size) (modify_lem _ (λ c p. p)) (
      seq (Accounts others size) (keep_item_lem o (λ c w p. p) (λ c w p. p)) (
        gets_then (λ c. c.item)
          (λ it.
            weaken (λ c p. (ap (λ (i : Item). i.stamp.length) p.1 ∙ p.0.1, p.0))
              (known (λ (same : it.stamp.length ≡ size).
                bind (λ _. Accounts others size)
                  (call_lem o false it.root (prepares it.target it.token it.stamp it.expected) []
                    (λ c w a p. p) (λ c w e p. p))
                  (λ r. bind_known (as_ready_lem r.0 (λ c p. p)) (λ n is_ready.
                    require_then _ _ (λ c p. p)
                      (λ low.
                        let in_size : not (ltb size n.0) ≡ true =
                          ap (λ m. not (ltb m n.0)) (sym same) ∙ low in
                        seq (Stood n.0) (modify_lem _ (λ c p. restart n c room in_size p)) (
                          seq (Stood n.0) (keep_item_lem o (λ c w p. p) (λ c w p. p.0))
                            (send_counts n.0 n.1))))))))))

either_way :
    {W : Type 0} (P : Client W → Type 0) (r : Result ClientError (Unit {0}) × Client W)
    → Outcome (λ _. P) P r
    → P r.1
either_way P (ok a, c) p = p
either_way P (err e, c) p = p

-- A copy keeps the task's count, whatever the peers answer and however it ends, in a failure too:
-- the task's bytes are those of the item and those of the other items, and the item has no more than
-- its source; if the two sizes together stay within 64 bits.
pub file-Accounts :
    {W : Type 0} (o : Outside W) (digest_of : List ℕ → String) (others size : ℕ) (c : Client W)
    → others + size ≤ u64_max
    → Accounts others size c
    → Accounts others size (file o digest_of c).1
file-Accounts o digest_of others size c room p =
    either_way (Accounts others size) (file o digest_of c)
      ((file_counts o digest_of others size room).run c p)
