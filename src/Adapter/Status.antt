-- ===== src/Adapter/Status.antt =====
-- crates/codex-adapter/src/status.rs: what Codex reports of a session's activity and usage. The
-- readers of numbers and the equality of JSON values are arguments.
pub mod Spellings
use remote_codex.Base.{
  ℕ, String, Bool, true, false, ◌&&◌, ◌||◌, Option, none, some, List, [], ◌∷◌, is_some,
  if◌then◌else◌,
}
use remote_codex.Adapter.Options.{or, unwrap_or, ◌>>=◌}
use package.text.Mathlib.Text.{◌==◌ as str_eq}
use remote_codex.Json.{
  Value, null, number, string, array, object, Items, nil, cons, Fields, end, field, get, at, as_str,
  is_text,
}
use remote_codex.Session.{
  TurnTiming, TokenUsage, RateWindow, RateLimit, SessionStatus, default_status, SessionEvent,
  activity_changed, usage_changed, rate_limits_changed,
}

pub record Numbers : Type 0 where
  pub as_u64 : String → Option ℕ
  pub as_i64 : String → Option ℕ
  pub as_f64 : String → Option ℕ
  pub same : Value → Value → Bool

abbrev pub read_number : (String → Option ℕ) → Value → Option ℕ
read_number read (number text) = read text
read_number read _ = none

abbrev texts : Items → List String
texts nil = []
texts (cons (string s) rest) = s ∷ texts rest
texts (cons _ rest) = texts rest

abbrev flags_in : Value → List String
flags_in (array items) = texts items
flags_in _ = []

abbrev flags : Value → List String
flags status = flags_in (at status "activeFlags")

abbrev same_text : Option String → Option String → Bool
same_text none none = true
same_text (some a) (some b) = str_eq a b
same_text _ _ = false

module _ (numbers : Numbers) where
  open numbers use {as_u64, as_i64, as_f64, same}

  abbrev pub timing : Value → TurnTiming
  timing turn = record {
    started_at = read_number as_i64 (at turn "startedAt");
    completed_at = read_number as_i64 (at turn "completedAt");
    duration_ms = read_number as_u64 (at turn "durationMs");
  }

  abbrev used_window : Value → Option ℕ → Option RateWindow
  used_window value none = none
  used_window value (some used) = some (record {
    used_percent = used;
    window_minutes = read_number as_u64 (at value "windowDurationMins");
    resets_at = read_number as_i64 (at value "resetsAt");
  })

  abbrev window : Value → Option RateWindow
  window value = used_window value (read_number as_f64 (at value "usedPercent"))

  abbrev named_limit : Value → Option String → Value → Option String → RateLimit
  named_limit main key v id = record {
    id = id;
    is_default =
        not_some key || ((same_text id (as_str (at main "limitId")) && is_some id) || same v main);
    name = unwrap_or "Codex" (or (as_str (at v "limitName")) id);
    primary = window (at v "primary");
    secondary = window (at v "secondary");
  }
    where
      not_some : Option String → Bool
      not_some none = true
      not_some (some _) = false

  abbrev limit : Value → Option String → Value → RateLimit
  limit main key v = named_limit main key v (or (as_str (at v "limitId")) key)

  abbrev limits_of : Value → Fields → List RateLimit
  limits_of main end = []
  limits_of main (field id v rest) = limit main (some id) v ∷ limits_of main rest

  abbrev main_limit : Value → List RateLimit
  main_limit (object fields) = limit (object fields) none (object fields) ∷ []
  main_limit _ = []

  abbrev limits_by : Value → Value → List RateLimit
  limits_by main (object (field id v rest)) = limits_of main (field id v rest)
  limits_by main _ = main_limit main

  unfoldable pub limits : Value → List RateLimit
  limits value = limits_by (at value "rateLimits") (at value "rateLimitsByLimitId")

  -- Codex has two spellings of the same counters.
  abbrev counter : Value → (native saved : String) → Option ℕ
  counter value native saved =
      or (read_number as_u64 (at value native)) (read_number as_u64 (at value saved))

  unfoldable pub tokens : Value → Value → Value → Option TokenUsage
  tokens last total context = do
    last_tokens ← counter last "totalTokens" "total_tokens"
    total_tokens ← counter total "totalTokens" "total_tokens"
    input_tokens ← counter last "inputTokens" "input_tokens"
    cached_input_tokens ← counter last "cachedInputTokens" "cached_input_tokens"
    output_tokens ← counter last "outputTokens" "output_tokens"
    reasoning_tokens ← counter last "reasoningOutputTokens" "reasoning_output_tokens"
    some (record {
      last_tokens = last_tokens;
      total_tokens = total_tokens;
      input_tokens = input_tokens;
      cached_input_tokens = cached_input_tokens;
      output_tokens = output_tokens;
      reasoning_tokens = reasoning_tokens;
      context_window = read_number as_u64 context;
    })

  abbrev activity : Value → Option String → Option SessionEvent
  activity status none = none
  activity status (some type) = some (activity_changed type (flags status))

  abbrev usage_event : Option TokenUsage → Option SessionEvent
  usage_event none = none
  usage_event (some usage) = some (usage_changed usage)

  unfoldable pub event : Value → Option SessionEvent
  unfolding tokens limits
  event value =
      let params = at value "params" in
      let usage = at params "tokenUsage" in
      if is_text (at value "method") "thread/status/changed"
      then activity (at params "status") (as_str (at (at params "status") "type"))
      else if is_text (at value "method") "thread/tokenUsage/updated"
      then usage_event (tokens (at usage "last") (at usage "total") (at usage "modelContextWindow"))
      else if is_text (at value "method") "account/rateLimits/updated"
      then some (rate_limits_changed (limits params))
      else none

-- The status of a thread that was opened.
unfoldable pub initial : Value → SessionStatus
initial response =
    let status = at (at response "thread") "status" in
    record default_status {
      provider = as_str (at response "modelProvider");
      activity = unwrap_or "notLoaded" (as_str (at status "type"));
      active_flags = flags status;
    }
