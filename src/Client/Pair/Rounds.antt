-- ===== src/Client/Pair/Rounds.antt =====
-- The loop of crates/client/src/transfers/copy.rs between two endpoints, where no call fails and
-- nobody interferes.
use mathlib.Core.Path.{subst}
use package.text.Mathlib.Text.{◌==◌ as str_eq}
use remote_codex.Base.{
  ℕ, zero, suc, ◌+◌, ◌-◌, ◌≤◌, ◌<◌, min, String, ◌≡◌, refl, sym, ap, ◌∙◌, Bool, true, false, not,
  ◌&&◌, Option, none, List, [], ◌∷◌, ◌++◌, ok, ltb, ◌==◌, length, take, drop, length-take,
  length-drop, take-append-slice, arith,
}
use remote_codex.Transfer.{Fault, Reply, ready, block, Stamp, chunk}
use remote_codex.Transfer.Paths.{codes, components}
use remote_codex.Transfer.World.{Meta, File, Journal, Stage, Publication, World, splice}
use remote_codex.Transfer.Stages.{Endpoint}
use remote_codex.Transfer.Inspect.{unchanged}
use remote_codex.Transfer.Staging.Complete.{quiet, held_stage, Owned, write-quiet}
use remote_codex.Transfer.Staging.Arrival.{splice-end, str_eq_refl, accepted}
use remote_codex.Exec.{Exec, continue, ◌>>=◌}
use remote_codex.Exec.Triples.{
  Outcome, Triple, bind, seq, weaken, known, if_lem, pure_lem, modify_lem, gets_then, passes,
  pure_then,
}
use remote_codex.Config.Text.{text_eq}
use remote_codex.Session.Errors.{ClientError}
use remote_codex.Client.Tasks.{Item}
use remote_codex.Client.Peers.{Command, reads, writes, Answer, Outside, Client, call, keep_item}
use remote_codex.Client.Peers.Rules.{exchanged}
use remote_codex.Client.Copy.{as_ready, as_block, copy_block, copy_blocks}
use remote_codex.Client.Copy.Calls.{fixed}
use remote_codex.Client.Pair.{answered, serve, pair}
use remote_codex.Client.Pair.Quiet.{holding, dispatch-reads, dispatch-writes}

abbrev pub On : {W : Type 0} → W → Item → Client W → Type 0
On w item c = (c.world ≡ w) × (fixed c.item ≡ item)

-- Nothing fails.
abbrev pub Never : {W : Type 0} → Client W → Type 0
Never c = ⊥

module _ {W A : Type 0} {F : Client W → Type 0} {Q : A → Client W → Type 0} (o : Outside W)
    (item : Item) where
  pub call_then :
      (k : Reply × List ℕ → Exec ClientError (Client W) A) (source : Bool) (root : ℕ)
      (command : Command) (bytes : List ℕ) (w w' : W) (a : Reply × List ℕ)
      → o.ask source root command bytes w ≡ (ok a, w')
      → Triple (On w' item) (k a) Q F
      → Triple (On w item) (call o source root command bytes >>= k) Q F
  unfolding call ◌>>=◌
  call_then k source root command bytes w w' a e rest = record {
    run = λ c p.
        subst
          (λ (r : Answer × W).
            Outcome Q F (continue k (r.0, exchanged source command bytes r.0 r.1 c)))
          (sym (ap (o.ask source root command bytes) p.0 ∙ e))
          (rest.run (exchanged source command bytes (ok a) w' c) (refl, p.1));
  }

intact :
    (k rest : ℕ) (d : String) → k ≡ min chunk rest → 0 < rest → (not (k == 0) && str_eq d d) ≡ true
intact k rest d e more = rw (str_eq_refl d) (ground arith)

confirmed :
    (k offset size : ℕ)
    → k ≡ min chunk (size - offset)
    → offset ≤ size
    → (offset + k == offset + k && not (ltb size (offset + k))) ≡ true
confirmed k offset size e low = ground arith

module _ {W : Type 0} {F : Client W → Type 0} (o : Outside W) (item : Item) where
  pub call_quiet :
      (source : Bool) (root : ℕ) (command : Command) (bytes : List ℕ) (w w' : W)
      (a : Reply × List ℕ)
      → o.ask source root command bytes w ≡ (ok a, w')
      → Triple (On w item) (call o source root command bytes) (λ _. On w' item) F
  unfolding call
  call_quiet source root command bytes w w' a e = record {
    run = λ c p.
        subst
          (λ (r : Answer × W).
            Outcome (λ _. On w' item) F (r.0, exchanged source command bytes r.0 r.1 c))
          (sym (ap (o.ask source root command bytes) p.0 ∙ e)) (refl, p.1);
  }

module _ (refuse : Fault → ClientError) (elsewhere : ClientError) (hs hd : Endpoint) where
  abbrev pub ends : Outside (World × World)
  ends = pair refuse elsewhere hs hd

  pub keep_quiet :
      {F : Client (World × World) → Type 0} (w : World × World) (item : Item)
      → Triple (On w item) (keep_item ends) (λ _. On w item) F
  unfolding keep_item
  keep_quiet w item = record { run = λ c p. p }

  module _ (f : File) (item : Item) (m : Meta) (j : Journal) (l : List Publication) where
    -- The source's disk, and the destination's with so many bytes of the file staged.
    abbrev pub disks : Option Stage → List Publication → ℕ → World × World
    disks s before offset = (
      holding f s before,
      quiet none (held_stage true (take offset f.bytes) m (record j { offset = offset })) l,
    )

    -- The item is a file with these contents, going from one endpoint's path to the other's.
    abbrev pub Fits : Item → Type 0
    Fits i =
        (text_eq i.source (codes hs.path) ≡ true)
        × ((text_eq i.target (codes hd.path) && str_eq i.token hd.token) ≡ true)
        × (unchanged i.stamp f ≡ true)
        × (j.source ≡ i.stamp)

    sized : (i : Item) → Fits i → length f.bytes ≡ i.stamp.length
    sized i fits = ground arith

    module _ (n n' : List ℕ) (ns ns' : List (List ℕ))
        (names : components (codes hs.path) ≡ ok (n ∷ ns))
        (names' : components (codes hd.path) ≡ ok (n' ∷ ns')) (uuid : hd.is_uuid hd.token ≡ true)
        (alike : hs.digest ≡ hd.digest) (own : Owned hd n' ns' uuid names' j)
        (open_journal : j.committed ≡ false) (s : Option Stage) (before : List Publication) where
      piece : Item → ℕ → List ℕ
      piece i offset = take (min chunk (i.stamp.length - offset)) (drop offset f.bytes)

      serve-reads :
          (i : Item) (offset : ℕ)
          → Fits i
          → offset ≤ i.stamp.length
          → serve refuse elsewhere hs (reads i.source i.stamp offset) [] (holding f s before)
            ≡ (ok (block (hs.digest (piece i offset)), piece i offset), holding f s before)
      unfolding serve piece
      serve-reads i offset fits low =
          rw (fits.0) (
            ap (answered refuse)
              (dispatch-reads hs n ns names f i.stamp fits.2 s before offset low))

      piece_length :
          (i : Item) (offset : ℕ)
          → Fits i
          → length (piece i offset) ≡ min chunk (i.stamp.length - offset)
      unfolding piece
      piece_length i offset fits = omega (
        arith,
        length-take (min chunk (i.stamp.length - offset)) (drop offset f.bytes),
        length-drop offset f.bytes,
        sized i fits,
      )

      -- The bytes so far and one piece more.
      spliced :
          (i : Item) (offset : ℕ)
          → Fits i
          → offset ≤ i.stamp.length
          → splice offset (piece i offset) (take offset f.bytes)
            ≡ take (offset + length (piece i offset)) f.bytes
      unfolding piece
      spliced i offset fits low =
          let at : length (take offset f.bytes) ≡ offset =
            omega (arith, length-take offset f.bytes, sized i fits) in
          ap (λ o. splice o (piece i offset) (take offset f.bytes)) (sym at)
          ∙ splice-end (piece i offset) (take offset f.bytes)
          ∙ whole_piece i offset
          ∙ ap (λ k. take (offset + k) f.bytes) (sym (piece_length i offset fits))
        where
          whole_piece :
              (i : Item) (offset : ℕ)
              → take offset f.bytes ++ piece i offset
                ≡ take (offset + min chunk (i.stamp.length - offset)) f.bytes
          whole_piece i offset =
              take-append-slice offset (min chunk (i.stamp.length - offset)) f.bytes

      abbrev pub staged_at : ℕ → World
      staged_at offset =
          quiet none (held_stage true (take offset f.bytes) m (record j { offset = offset })) l

      serve-writes :
          (i : Item) (offset : ℕ)
          → Fits i
          → offset < i.stamp.length
          → serve refuse elsewhere hd
              (writes i.target i.token offset (hd.digest (piece i offset)))
              (piece i offset)
              (staged_at offset)
            ≡ (
              ok (ready (offset + length (piece i offset)) false, []),
              staged_at (offset + length (piece i offset)),
            )
      unfolding serve
      serve-writes i offset fits low = rw (fits.1) (
          ap (answered refuse) (
            dispatch-writes hd (staged_at offset) (staged_at (offset + length (piece i offset)))
              (ready (offset + length (piece i offset)) false) offset (hd.digest (piece i offset))
              (piece i offset)
              (write-quiet hd n' ns' uuid names' none (take offset f.bytes) m
                  (record j { offset = offset }) l offset (hd.digest (piece i offset))
                  (piece i offset) own
                  (accepted hd n' ns' uuid names' (record j { offset = offset }) (piece i offset)
                    open_journal
                    (is_block_of (length (piece i offset)) (i.stamp.length - offset)
                      (piece_length i offset fits) (omega arith))
                    (room (length (piece i offset)) (piece_length i offset fits)
                      (ap (λ (x : Stamp). x.length) fits.3)))
                ∙ ap
                    (λ (bytes : List ℕ). (
                      ok (ready (offset + length (piece i offset)) false),
                      quiet none
                          (held_stage true bytes m
                            (record j { offset = offset + length (piece i offset) }))
                          l,
                    ))
                    (spliced i offset fits (omega arith)))))
        where
          is_block_of :
              (k rest : ℕ)
              → k ≡ min chunk rest
              → 0 < rest
              → (not (k == 0) && not (ltb chunk k)) ≡ true
          is_block_of k rest e more = ground arith

          room :
              (k : ℕ)
              → k ≡ min chunk (i.stamp.length - offset)
              → j.source.length ≡ i.stamp.length
              → offset + k ≤ j.source.length
          room k e same = omega arith

      abbrev pub at_ends : ℕ → World × World
      at_ends offset = (holding f s before, staged_at offset)

      abbrev next : Item → ℕ → ℕ
      next i offset = offset + length (piece i offset)

      ask-reads :
          (i : Item) (offset : ℕ)
          → Fits i
          → offset ≤ i.stamp.length
          → ends.ask true i.root (reads i.source i.stamp offset) [] (at_ends offset)
            ≡ (ok (block (hd.digest (piece i offset)), piece i offset), at_ends offset)
      ask-reads i offset fits low =
          ap (λ (r : Answer × World). (r.0, (r.1, staged_at offset)))
            (serve-reads i offset fits low)
          ∙ ap
              (λ (digest : List ℕ → String).
                (ok (block (digest (piece i offset)), piece i offset), at_ends offset))
              alike

      ask-writes :
          (i : Item) (offset : ℕ)
          → Fits i
          → offset < i.stamp.length
          → ends.ask false i.root
              (writes i.target i.token offset (hd.digest (piece i offset)))
              (piece i offset)
              (at_ends offset)
            ≡ (ok (ready (next i offset) false, []), at_ends (next i offset))
      ask-writes i offset fits low =
          ap (λ (r : Answer × World). (r.0, (holding f s before, r.1)))
            (serve-writes i offset fits low)

      copy_block_quiet :
          (offset : ℕ)
          → Fits item
          → offset < item.stamp.length
          → Triple
              (On (at_ends offset) item)
              (copy_block ends hd.digest offset)
              (λ to c. (to ≡ next item offset) × On (at_ends to) item c)
              Never
      unfolding copy_block as_block as_ready piece
      copy_block_quiet offset fits low =
          gets_then (λ c. c.item)
            (λ it.
              weaken (λ c p. (ap fixed p.1 ∙ p.0.1, p.0))
                (known (λ (same : fixed it ≡ item).
                  let fits' : Fits it = subst Fits (sym same) fits in
                  let low' : offset < it.stamp.length =
                    subst (λ (i : Item). offset < i.stamp.length) (sym same) low in
                  call_then ends item _ true it.root (reads it.source it.stamp offset) []
                    (at_ends offset) (at_ends offset)
                    (block (hd.digest (piece it offset)), piece it offset)
                    (ask-reads it offset fits' (omega arith))
                    (pure_then (hd.digest (piece it offset)) _ (
                      passes _ _
                        (intact (length (piece it offset)) (it.stamp.length - offset)
                          (hd.digest (piece it offset)) (piece_length it offset fits')
                          (omega arith))
                        (call_then ends item _ false it.root
                          (writes it.target it.token offset (hd.digest (piece it offset)))
                          (piece it offset) (at_ends offset) (at_ends (next it offset))
                          (ready (next it offset) false, []) (ask-writes it offset fits' low')
                          (pure_then {B = ℕ × Bool} (next it offset, false) _
                            (passes _ _ refl (
                              passes _ _
                                (confirmed (length (piece it offset)) offset it.stamp.length
                                  (piece_length it offset fits') (omega arith))
                                (seq (On (at_ends (next it offset)) item) (modify_lem _ (λ c p. p))
                                  (seq (On (at_ends (next it offset)) item)
                                    (keep_quiet (at_ends (next it offset)) item)
                                    (pure_lem (next it offset)
                                      (λ c p. (ap (λ i. next i offset) same, p))))))))))))))

      goes_on :
          (fuel offset to : ℕ)
          → Fits item
          → to ≡ next item offset
          → offset < item.stamp.length
          → item.stamp.length ≤ suc fuel + offset
          → item.stamp.length ≤ fuel + to
      goes_on fuel offset to fits e more enough = omega (arith, piece_length item offset fits)

      stays_in :
          (offset to : ℕ)
          → Fits item
          → to ≡ next item offset
          → offset ≤ item.stamp.length
          → to ≤ item.stamp.length
      stays_in offset to fits e low = omega (arith, piece_length item offset fits)

      pub loop_goes :
          (fuel offset : ℕ)
          → Fits item
          → item.stamp.length ≤ fuel + offset
          → offset ≤ item.stamp.length
          → Triple
              (On (at_ends offset) item)
              (copy_blocks ends hd.digest fuel offset)
              (λ _. On (at_ends item.stamp.length) item)
              Never
      unfolding copy_blocks
      loop_goes zero offset fits enough low =
          gets_then (λ c. c.item)
            (λ it.
              weaken (λ c p. p.0)
                (pure_lem _ (λ c p. subst (λ k. On (at_ends k) item c) (omega arith) p)))
      loop_goes (suc fuel) offset fits enough low =
          gets_then (λ c. c.item)
            (λ it.
              weaken (λ c p. (ap fixed p.1 ∙ p.0.1, p.0))
                (known (λ (same : fixed it ≡ item).
                  let size : it.stamp.length ≡ item.stamp.length =
                    ap (λ (i : Item). i.stamp.length) same in
                  if_lem (ltb offset it.stamp.length) _ _
                    (λ more.
                      bind (λ to c. (to ≡ next item offset) × On (at_ends to) item c)
                        (copy_block_quiet offset fits (ground arith))
                        (λ to. known (λ (e : to ≡ next item offset).
                          loop_goes fuel to fits
                            (goes_on fuel offset to fits e (ground arith) enough)
                            (stays_in offset to fits e low))))
                    (λ past. pure_lem true (λ c p.
                      let at : offset ≡ item.stamp.length = ground arith in
                      subst (λ k. On (at_ends k) item c) at p)))))
