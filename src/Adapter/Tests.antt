-- ===== src/Adapter/Tests.antt =====
-- The translation of Codex's messages (crates/codex-adapter/src) on concrete messages.
use package.text.Mathlib.Text.{◌==◌ as str_eq}
use remote_codex.Base.{
  ℕ, String, ◌≡◌, refl, true, false, Option, none, some, List, [], ◌∷◌, ok, ◌≤◌, length, is_some,
  if◌then◌else◌, Bool, true, false, ◌==◌, arith,
}
use remote_codex.Session.{interrupted, failed, turn_completed}
use remote_codex.Json.{Value, null, number, string, array, object, nil, cons, end, field}
use remote_codex.Adapter.Status.{Numbers, tokens}
use remote_codex.Adapter.Status.Spellings.{native, saved, usage, tokens_agree}
use remote_codex.Adapter.Delivery.{Step, sends, writes, steps, accepted}
use remote_codex.Adapter.Delivery.Once.{open_copies, delivered_once}
use remote_codex.Adapter.Forms.{InputField}
use remote_codex.Adapter.Interactions.{accept, Reader, response, form_result}
use remote_codex.Adapter.Interactions.Answers.{Answered}
use remote_codex.Adapter.Events.{
  Outside, known, warned, requested, session_event, resolved, interaction_resolved,
  interrupted_message, failed_message, warning, accept_once,
}
use remote_codex.Adapter.Events.Sent as Sent
use remote_codex.Adapter.Goals as Goals
use remote_codex.Adapter.Goals.Sent as GoalSent

abbrev read_small : String → Option ℕ
read_small text = if str_eq text "7" then some 7 else some 1

abbrev to_text : Value → String
to_text (string s) = s
to_text (number s) = s
to_text _ = "?"

abbrev request : Value
request =
    object (field "id" (number "7") (field "method" (string "item/tool/requestUserInput") end))

abbrev resolved_7 : Value
resolved_7 = object (
    field "method" (string "serverRequest/resolved")
      (field "params" (object (field "requestId" (number "7") end)) end))

-- The second copy is dropped, the one after the resolution is not.
abbrev messages : List Step
messages = sends request ∷ sends request ∷ writes ∷ sends resolved_7 ∷ sends request ∷ []

sent_messages : length (steps to_text messages accepted).outgoing ≡ 3
unfolding steps
sent_messages = refl

nothing_dropped : is_some (steps to_text messages accepted).failure ≡ false
unfolding steps
nothing_dropped = refl

delivered_once_example : open_copies to_text "7" (steps to_text messages accepted).outgoing ≤ 1
delivered_once_example = delivered_once to_text "7" messages nothing_dropped

abbrev numbers : Numbers
numbers = record {
  as_u64 = read_small;
  as_i64 = read_small;
  as_f64 = read_small;
  same = λ a b. false;
}

abbrev read_digit : String → Option ℕ
read_digit t =
    if str_eq t "1"
    then some 1
    else if str_eq t "2"
    then some 2
    else if str_eq t "3"
    then some 3
    else if str_eq t "4"
    then some 4
    else if str_eq t "5"
    then some 5
    else some 6

abbrev digits : Numbers
digits = record numbers { as_u64 = read_digit }

tokens_agree_example :
    let counted = some (usage 1 2 3 4 5 6 none) in
    (tokens digits (native "1" "2" "3" "4" "5") (native "6" "2" "3" "4" "5") null ≡ counted)
    × ((tokens digits (saved "1" "2" "3" "4" "5") (saved "6" "2" "3" "4" "5") null ≡ counted)
        × ((tokens digits (native "1" "2" "3" "4" "5") (saved "6" "2" "3" "4" "5") null ≡ counted)
            × (tokens digits (saved "1" "2" "3" "4" "5") (native "6" "2" "3" "4" "5") null
                ≡ counted)))
tokens_agree_example =
    tokens_agree digits "1" "2" "3" "4" "5" "6" null 1 2 3 4 5 6 refl refl refl refl refl refl

abbrev reader : Reader
reader = record {
  from_str = λ s. some (number s);
  as_u64 = read_small;
  as_f64 = read_small;
  at_least = λ a b. true;
  is_whole = λ a. true;
}

abbrev elicited : Value
elicited = object (
    field "id" (number "7") (
      field "method" (string "mcpServer/elicitation/request") (
        field "params"
          (object (
            field "serverName" (string "files") (
              field "message" (string "Which?") (
                field "mode" (string "form") (
                  field "requestedSchema"
                    (object (
                      field "properties"
                        (object (
                          field "name"
                            (object
                              (field "type" (string "string") (field "minLength" (number "1") end)))
                            end))
                        (field "required" (array (cons (string "name") nil)) end)))
                    end)))))
          end)))

abbrev name_field : InputField
name_field = record {
  id = "name";
  label = "name";
  description = "";
  kind = "string";
  required = true;
  choices = [];
  secret = false;
}

abbrev answered : Value
answered = response elicited (form_result accept (object (field "name" (string "notes") end)))

-- A JSON value is written as nothing but a number here.
abbrev outside : Outside
outside = record {
  ToolItem = Unit {0};
  status_of = λ t. "";
  with_status = λ s t. t;
  tool = λ v. none;
  item_text = λ v. "";
  questions = λ v. [];
  numbers = numbers;
  read_goal = λ v. none;
  to_string = to_text;
  from_str = λ s. some (number s);
}

own_messages_read_example :
    ((session_event outside (interrupted_message "t" "u") "t"
        ≡ some (known (turn_completed "u" Sent.no_timing interrupted)))
      × ((session_event outside (failed_message "t" "u" "w") "t"
            ≡ some (known (turn_completed "u" Sent.no_timing (failed "w"))))
          × (session_event outside (warning "t" "w") "t" ≡ some (warned "w"))))
    × ((session_event outside (interrupted_message "t" "u") "s" ≡ none)
        × ((session_event outside (failed_message "t" "u" "w") "s" ≡ none)
            × (session_event outside (warning "t" "w") "s" ≡ none)))
own_messages_read_example = Sent.own_messages_read outside "t" "u" "w" "s" refl

request-Answered_example :
    (session_event outside request "t"
      ≡ some (requested outside request (number "7") "item/tool/requestUserInput"))
    × (Sent.Asks "7" false (requested outside request (number "7") "item/tool/requestUserInput"))
    × (Sent.Answered outside (number "7") accept_once
        × ((message : Value)
            → resolved outside "s" "7" ≡ ok message
            → session_event outside message "t" ≡ some (interaction_resolved "7")))
request-Answered_example =
    Sent.request-Answered outside request (number "7") "item/tool/requestUserInput" "t" "s"
      accept_once refl refl refl

abbrev digit : ℕ → String
digit n = if n == 0 then "0" else "5"

digit_apart : (n : ℕ) → str_eq (digit n) (digit 0) ≡ true → n ≡ 0
digit_apart n = by_zero (n == 0) (λ is. ground arith)
  where
    by_zero : (b : Bool) → (b ≡ true → n ≡ 0) → str_eq (if b then "0" else "5") "0" ≡ true → n ≡ 0
    by_zero true k same = k refl
    by_zero false k same = absurd (cc)

abbrev goal_message : Value
goal_message = object (
    field "threadId" (string "t") (
      field "objective" (string "ship")
        (field "tokenBudget" (number "5") (field "status" (string "active") end))))

goal_set : Goals.params digit "t" (Goals.set "ship" (some 5)) ≡ ok ("thread/goal/set", goal_message)
unfolding Goals.params
goal_set = refl

goal_fits_example : GoalSent.Fits "0" "t" goal_message
goal_fits_example =
    GoalSent.goal_fits digit digit_apart "t" "thread/goal/set" (Goals.set "ship" (some 5))
      goal_message goal_set
