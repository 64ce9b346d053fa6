-- ===== src/Transfer/World/Splice.antt =====
-- A write at a position keeps what stands before it, and puts the block there.
use Prim.Native.Nat.{ℕ, suc, ◌+◌, ◌-◌, ◌≤◌}
use mathlib.Core.List.{append-nil}
use remote_codex.Base.{
  ◌≡◌, refl, ap, sym, ◌∙◌, List, [], ◌∷◌, ◌++◌, length, take, drop, replicate, length-append,
  length-take, take-append_left, take-take, take_all, arith,
}
use remote_codex.Transfer.World.{splice}

no_gap : (at : ℕ) (old : List ℕ) → at ≤ length old → replicate {A = ℕ} (at - length old) 0 ≡ []
no_gap at old h = let e : at - length old ≡ 0 = omega arith in ap (λ n. replicate {A = ℕ} n 0) e

pub take-splice_before :
    (n at : ℕ) (block old : List ℕ)
    → n ≤ at
    → at ≤ length old
    → take n (splice at block old) ≡ take n old
unfolding splice
take-splice_before n at [] old h k = refl
take-splice_before n at (b ∷ bs) old h k =
    take-append_left n (take at old) _ (omega (arith, length-take at old)) ∙ take-take n at old h

pub length-splice_ge :
    (at : ℕ) (block old : List ℕ)
    → at ≤ length old
    → at + length block ≤ length (splice at block old)
unfolding splice
length-splice_ge at [] old k = omega arith
length-splice_ge at (b ∷ bs) old k = rw (no_gap at old k) (
    omega (
      arith,
      length-append (take at old) ((b ∷ bs) ++ drop (at + length (b ∷ bs)) old),
      length-append (b ∷ bs) (drop (at + length (b ∷ bs)) old),
      length-take at old,
    ))

-- The first elements of two lists one after the other.
take-append_exact : (xs ys zs : List ℕ) → take (length xs + length ys) (xs ++ (ys ++ zs)) ≡ xs ++ ys
take-append_exact [] ys zs =
    let e : 0 + length ys ≡ length ys = omega arith in
    rw e (take-append_left (length ys) ys zs (omega arith) ∙ take_all (length ys) ys (omega arith))
take-append_exact (x ∷ xs) ys zs =
    let e : length (x ∷ xs) + length ys ≡ suc (length xs + length ys) = omega arith in
    rw e (ap (◌∷◌ x) (take-append_exact xs ys zs))

pub take-splice_after :
    (at : ℕ) (block old : List ℕ)
    → at ≤ length old
    → take (at + length block) (splice at block old) ≡ take at old ++ block
unfolding splice
take-splice_after at [] old k =
    let e : at + 0 ≡ at = omega arith in ap (λ n. take n old) e ∙ sym (append-nil (take at old))
take-splice_after at (b ∷ bs) old k =
    let e : at + length (b ∷ bs) ≡ length (take at old) + length (b ∷ bs) =
      omega (arith, length-take at old) in
    rw (no_gap at old k) (
      ap (λ n. take n (take at old ++ ((b ∷ bs) ++ drop (at + length (b ∷ bs)) old))) e
      ∙ take-append_exact (take at old) (b ∷ bs) _)
