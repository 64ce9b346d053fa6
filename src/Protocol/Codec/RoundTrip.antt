-- ===== src/Protocol/Codec/RoundTrip.antt =====
-- A frame that is written is read back (crates/protocol/src/codec.rs).
use mathlib.Core.Path.{subst}
use mathlib.Core.List.{append_assoc}
use remote_codex.Base.{
  ℕ, suc, ◌+◌, ◌≤◌, ◌≡◌, refl, sym, ap, ◌∙◌, Bool, true, false, Option, none, some, List, [], ◌∷◌,
  ◌++◌, Result, ok, err, if◌then◌else◌, ltb, length, take, drop, all, length-append, arith,
}
use remote_codex.Protocol.Codec.{
  IoError, frame_too_long, Reader, newline, take_chunk, position, consume, parsed, next_from, next,
  write_with_limit,
}
use remote_codex.Protocol.Codec.Frames.{flat, is_filled, one_line, Located, position-Located}

flat-consume :
    (n : ℕ) (chunk : List ℕ) (rest : List (List ℕ))
    → flat (consume n chunk rest) ≡ drop n chunk ++ flat rest
flat-consume n chunk rest = by_rest (drop n chunk)
  where
    by_rest :
        (left : List ℕ)
        → flat (elim left [ [] ↦ rest | b ∷ bs ↦ (b ∷ bs) ∷ rest ]) ≡ left ++ flat rest
    by_rest [] = refl
    by_rest (b ∷ bs) = refl

consume_filled :
    (n : ℕ) (chunk : List ℕ) (rest : List (List ℕ))
    → all is_filled rest ≡ true
    → all is_filled (consume n chunk rest) ≡ true
consume_filled n chunk rest good = by_rest (drop n chunk)
  where
    by_rest :
        (left : List ℕ) → all is_filled (elim left [ [] ↦ rest | b ∷ bs ↦ (b ∷ bs) ∷ rest ]) ≡ true
    by_rest [] = good
    by_rest (b ∷ bs) = good

one_line-append : (xs ys : List ℕ) → one_line (xs ++ ys) ≡ true → one_line ys ≡ true
one_line-append [] ys good = good
one_line-append (x ∷ xs) ys good = one_line-append xs ys (ground arith)

module _ {A : Type 0} (decode : List ℕ → Option A) where
  -- The frame is read, what follows it is left, and the reader is as at the start.
  pub record Reads (limit : ℕ) (frame rest : List ℕ) (r : Result IoError (Option A) × Reader)
      : Type 0 where
    pub answer : r.0 ≡ parsed decode (decode frame)
    pub left : flat r.1.input ≡ rest
    pub emptied : r.1.bytes ≡ []
    pub same_limit : r.1.limit ≡ limit
    pub filled : all is_filled r.1.input ≡ true

  take_chunk-Reads :
      (limit : ℕ) (bytes chunk : List ℕ) (input : List (List ℕ)) (line rest : List ℕ) (o : Option ℕ)
      (more : Result IoError (Option A) × Reader)
      → all is_filled input ≡ true
      → length bytes + (length line + 1) ≤ limit
      → Located chunk (flat input) line rest o
      → ((tail : List ℕ)
          → line ≡ chunk ++ tail
          → flat input ≡ tail ++ (newline ∷ rest)
          → Reads limit ((bytes ++ chunk) ++ (tail ++ (newline ∷ []))) rest more)
      → Reads limit
          (bytes ++ (line ++ (newline ∷ [])))
          rest
          (take_chunk decode limit bytes chunk input o more)
  unfolding take_chunk
  take_chunk-Reads limit bytes chunk input line rest none more full fits (tail, e, f) later =
      by_test (ltb limit (length bytes + length chunk)) (ground (arith, shorter))
        (subst (λ x. Reads limit x rest more) whole (later tail e f))
    where
      shorter : length line ≡ length chunk + length tail
      shorter = ap length e ∙ length-append chunk tail

      whole : (bytes ++ chunk) ++ (tail ++ (newline ∷ [])) ≡ bytes ++ (line ++ (newline ∷ []))
      whole =
          append_assoc bytes chunk (tail ++ (newline ∷ []))
          ∙ ap (λ x. bytes ++ x)
              (sym (append_assoc chunk tail (newline ∷ [])) ∙ ap (λ x. x ++ (newline ∷ [])) (sym e))

      by_test :
          (b : Bool)
          → b ≡ false
          → Reads limit (bytes ++ (line ++ (newline ∷ []))) rest more
          → Reads limit (bytes ++ (line ++ (newline ∷ []))) rest (
              if b
              then (
                err frame_too_long,
                record { input = chunk ∷ input; bytes = bytes; limit = limit },
              )
              else more)
      by_test true e r = absurd (cc)
      by_test false e r = r
  take_chunk-Reads limit bytes chunk input line rest (some i) more full fits (e, f, g) later =
      by_test (ltb limit (length bytes + suc i)) (ground (arith, g))
    where
      by_test :
          (b : Bool)
          → b ≡ false
          → Reads limit (bytes ++ (line ++ (newline ∷ []))) rest (
              if b
              then (
                err frame_too_long,
                record { input = chunk ∷ input; bytes = bytes; limit = limit },
              )
              else (
                parsed decode (decode (bytes ++ take (suc i) chunk)),
                record { input = consume (suc i) chunk input; bytes = []; limit = limit },
              ))
      by_test true no_error = absurd (cc)
      by_test false same = record {
        answer = ap (λ x. parsed decode (decode (bytes ++ x))) e;
        left = flat-consume (suc i) chunk input ∙ f;
        emptied = refl;
        same_limit = refl;
        filled = consume_filled (suc i) chunk input full;
      }

  next_from-Reads :
      (limit : ℕ) (bytes : List ℕ) (input : List (List ℕ)) (line rest : List ℕ)
      → all is_filled input ≡ true
      → one_line line ≡ true
      → flat input ≡ line ++ (newline ∷ rest)
      → length bytes + (length line + 1) ≤ limit
      → Reads limit (bytes ++ (line ++ (newline ∷ []))) rest (next_from decode limit bytes input)
  unfolding next_from
  next_from-Reads limit bytes [] line rest full good e fits = absurd (no_end line e)
    where
      no_end : (line : List ℕ) → [] ≡ line ++ (newline ∷ rest) → ⊥
      no_end [] e = cc
      no_end (x ∷ xs) e = cc
  next_from-Reads limit bytes ([] ∷ input) line rest full good e fits = absurd (cc)
  next_from-Reads limit bytes ((b ∷ bs) ∷ input) line rest full good e fits =
      take_chunk-Reads limit bytes (b ∷ bs) input line rest (position (b ∷ bs))
        (next_from decode limit (bytes ++ (b ∷ bs)) input) full fits
        (position-Located (b ∷ bs) (flat input) line rest good e)
        (λ tail same follows.
          next_from-Reads limit (bytes ++ (b ∷ bs)) input tail rest full
            (one_line-append (b ∷ bs) tail (ap one_line (sym same) ∙ good)) follows
            (shorter tail same))
    where
      shorter :
          (tail : List ℕ)
          → line ≡ (b ∷ bs) ++ tail
          → length (bytes ++ (b ∷ bs)) + (length tail + 1) ≤ limit
      shorter tail same =
          omega (arith, ap length same ∙ length-append (b ∷ bs) tail, length-append bytes (b ∷ bs))

  written :
      (encode : A → List ℕ) (a : A) (limit : ℕ) (frame : List ℕ)
      → write_with_limit encode true a limit ≡ ok frame
      → (encode a ++ (newline ∷ []) ≡ frame) × (length (encode a) + 1 ≤ limit)
  unfolding write_with_limit
  written encode a limit frame e = by_test (ltb limit (length (encode a ++ (newline ∷ [])))) refl e
    where
      by_test :
          (b : Bool)
          → ltb limit (length (encode a ++ (newline ∷ []))) ≡ b
          → ◌≡◌ {A = Result IoError (List ℕ)}
              (if b then err frame_too_long else ok (encode a ++ (newline ∷ [])))
              (ok frame)
          → (encode a ++ (newline ∷ []) ≡ frame) × (length (encode a) + 1 ≤ limit)
      by_test true same no_error = absurd (cc)
      by_test false same e = (
        ap (λ x. elim x [ ok f ↦ f | err f ↦ [] ]) e,
        ground (arith, length-append (encode a) (newline ∷ [])),
      )

  -- A frame that the writer accepts is read back as the value written, and the bytes after it are
  -- left for the next frame, however the bytes are cut into what each read returns; if the JSON of
  -- the value has no newline and parses, with its newline, to the value, and if the reader has the
  -- writer's limit and keeps nothing.
  pub next-write :
      (encode : A → List ℕ) (a : A) (r : Reader) (frame rest : List ℕ)
      → one_line (encode a) ≡ true
      → decode (encode a ++ (newline ∷ [])) ≡ some a
      → write_with_limit encode true a r.limit ≡ ok frame
      → all is_filled r.input ≡ true
      → r.bytes ≡ []
      → flat r.input ≡ frame ++ rest
      → ((next decode r).0 ≡ ok (some a))
        × (flat (next decode r).1.input ≡ rest)
        × ((next decode r).1.bytes ≡ [])
        × ((next decode r).1.limit ≡ r.limit)
  unfolding next
  next-write encode a r frame rest line parses wrote full fresh arrives =
      let (same, fits) = written encode a r.limit frame wrote in
      let start : flat r.input ≡ encode a ++ (newline ∷ rest) =
        arrives ∙ ap (λ x. x ++ rest) (sym same) ∙ append_assoc (encode a) (newline ∷ []) rest in
      let got =
        subst
          (λ x.
            Reads r.limit (x ++ (encode a ++ (newline ∷ []))) rest
              (next_from decode r.limit x r.input))
          (sym fresh)
          (next_from-Reads r.limit [] r.input (encode a) rest full line start
            (omega (arith, fits))) in
      (
        got.answer
            ∙ ap (λ x. parsed decode (decode (x ++ (encode a ++ (newline ∷ []))))) fresh
            ∙ ap (parsed decode) parses,
        got.left,
        got.emptied,
        got.same_limit,
      )
