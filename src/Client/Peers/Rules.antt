-- ===== src/Client/Peers/Rules.antt =====
-- Conditions before and after the calls of a transfer task (crates/client/src/transfers/peer.rs),
-- whatever the peers answer and the store does.
use remote_codex.Base.{ℕ, ◌≡◌, refl, Bool, List, ◌∷◌, Result, ok, err}
use remote_codex.Transfer.{Reply, stat, listing, ready, block, hash, done}
use remote_codex.Session.Errors.{ClientError, remote_response}
use remote_codex.Exec.Triples.{Outcome, Triple, pure_lem, throw_lem}
use remote_codex.Client.Peers.{
  Command, Answer, Outside, Client, call, keep_item, keep_task, as_stat,
}

module _ {W : Type 0} where
  abbrev pub exchanged : Bool → Command → List ℕ → Answer → W → Client W → Client W
  exchanged source command bytes answer w c = record c {
    world = w;
    history =
        record { source = source; command = command; payload = bytes; answer = answer } ∷ c.history;
  }

  module _ {P F : Client W → Type 0} (o : Outside W) where
    pub call_lem :
        {Q : Reply × List ℕ → Client W → Type 0} (source : Bool) (root : ℕ) (command : Command)
        (bytes : List ℕ)
        → ((c : Client W) (w : W) (a : Reply × List ℕ)
            → P c
            → Q a (exchanged source command bytes (ok a) w c))
        → ((c : Client W) (w : W) (e : ClientError)
            → P c
            → F (exchanged source command bytes (err e) w c))
        → Triple P (call o source root command bytes) Q F
    unfolding call
    call_lem {Q} source root command bytes good bad = record {
      run = λ c p. answered c p (o.ask source root command bytes c.world);
    }
      where
        answered :
            (c : Client W)
            → P c
            → (r : Answer × W) → Outcome Q F (r.0, exchanged source command bytes r.0 r.1 c)
        answered c p (ok a, w) = good c w a p
        answered c p (err e, w) = bad c w e p

    pub keep_item_lem :
        ((c : Client W) (w : W) → P c → P (record c { world = w }))
        → ((c : Client W) (w : W) → P c → F (record c { world = w }))
        → Triple P (keep_item o) (λ _. P) F
    unfolding keep_item
    keep_item_lem good bad = record { run = λ c p. kept c p (o.store_item c.item c.world) }
      where
        kept :
            (c : Client W)
            → P c
            → (r : Result ClientError (Unit {0}) × W)
            → Outcome (λ _. P) F (r.0, record c { world = r.1 })
        kept c p (ok a, w) = good c w p
        kept c p (err e, w) = bad c w p

    pub keep_task_lem :
        ((c : Client W) (w : W) → P c → P (record c { world = w }))
        → ((c : Client W) (w : W) → P c → F (record c { world = w }))
        → Triple P (keep_task o) (λ _. P) F
    unfolding keep_task
    keep_task_lem good bad = record { run = λ c p. kept c p (o.store_task c.task c.world) }
      where
        kept :
            (c : Client W)
            → P c
            → (r : Result ClientError (Unit {0}) × W)
            → Outcome (λ _. P) F (r.0, record c { world = r.1 })
        kept c p (ok a, w) = good c w p
        kept c p (err e, w) = bad c w p

module _ {W : Type 0} where
  module _ {P F : Client W → Type 0} where
    pub as_stat_lem :
        (reply : Reply)
        → ((c : Client W) → P c → F c)
        → Triple P (as_stat reply) (λ s c. P c × (reply ≡ stat s)) F
    unfolding as_stat
    as_stat_lem (stat s) k = pure_lem s (λ c p. (p, refl))
    as_stat_lem (listing page) k = throw_lem remote_response k
    as_stat_lem (ready n b) k = throw_lem remote_response k
    as_stat_lem (block d) k = throw_lem remote_response k
    as_stat_lem (hash d) k = throw_lem remote_response k
    as_stat_lem done k = throw_lem remote_response k
