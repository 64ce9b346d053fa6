-- ===== src/Adapter/Status/Spellings.antt =====
-- The two spellings of the counters of crates/codex-adapter/src/status.rs.
use remote_codex.Base.{ℕ, String, ◌≡◌, refl, Option, some}
use remote_codex.Json.{Value, number, object, end, field}
use remote_codex.Adapter.Status.{Numbers, read_number, tokens}
use remote_codex.Session.{TokenUsage}

-- The counters as the app server of Codex names them, and as a saved rollout does.
abbrev pub native : (all input cached output reasoning : String) → Value
native all input cached output reasoning = object (
    field "totalTokens" (number all) (
      field "inputTokens" (number input) (
        field "cachedInputTokens" (number cached) (
          field "outputTokens" (number output)
            (field "reasoningOutputTokens" (number reasoning) end)))))

abbrev pub saved : (all input cached output reasoning : String) → Value
saved all input cached output reasoning = object (
    field "total_tokens" (number all) (
      field "input_tokens" (number input) (
        field "cached_input_tokens" (number cached) (
          field "output_tokens" (number output)
            (field "reasoning_output_tokens" (number reasoning) end)))))

-- The usage that consists of these counts.
abbrev pub usage : (all input cached output reasoning whole : ℕ) → Option ℕ → TokenUsage
usage all input cached output reasoning whole context = record {
  last_tokens = all;
  total_tokens = whole;
  input_tokens = input;
  cached_input_tokens = cached;
  output_tokens = output;
  reasoning_tokens = reasoning;
  context_window = context;
}

-- Counters of these counts give the usage of just these counts, each in its place, whether they are
-- written natively, as a saved rollout has them, or one each way.
pub tokens_agree :
    (numbers : Numbers) (all input cached output reasoning whole : String) (context : Value)
    (a i c o r w : ℕ)
    → numbers.as_u64 all ≡ some a
    → numbers.as_u64 input ≡ some i
    → numbers.as_u64 cached ≡ some c
    → numbers.as_u64 output ≡ some o
    → numbers.as_u64 reasoning ≡ some r
    → numbers.as_u64 whole ≡ some w
    → let counted = some (usage a i c o r w (read_number numbers.as_u64 context)) in
      (tokens numbers
          (native all input cached output reasoning)
          (native whole input cached output reasoning)
          context
        ≡ counted)
      × ((tokens numbers
              (saved all input cached output reasoning)
              (saved whole input cached output reasoning)
              context
            ≡ counted)
          × ((tokens numbers
                  (native all input cached output reasoning)
                  (saved whole input cached output reasoning)
                  context
                ≡ counted)
              × (tokens numbers
                    (saved all input cached output reasoning)
                    (native whole input cached output reasoning)
                    context
                  ≡ counted)))
unfolding tokens
tokens_agree numbers all input cached output reasoning whole context a i c o r w is_all is_input
      is_cached is_output is_reasoning is_whole =
    rw (is_all, is_input, is_cached, is_output, is_reasoning, is_whole) (refl, (refl, (refl, refl)))
