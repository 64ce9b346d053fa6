-- ===== src/Server/Operations/Sent.antt =====
-- Which messages reach the executor in any run of crates/server/src/execution/operations.rs.
use remote_codex.Base.{
  String, ◌≡◌, refl, Bool, true, false, not, ◌&&◌, ◌||◌, Option, none, some, List, [], ◌∷◌, ok, any,
  is_some, arith,
}
use remote_codex.Json.{
  Value, null, boolean, number, string, array, object, Fields, find, put, at, as_str, or_null,
  with_field,
}
use remote_codex.Server.Policy.{Runtime, SessionPermissions, CommandApproval, is_response}
use remote_codex.Server.Replay.{Replay}
use remote_codex.Server.Tables.{Channel, Fate}
use remote_codex.Server.Operations.{Outside, check, dispatch}
use remote_codex.Server.Operations.Collect.{collect}
use remote_codex.Server.Operations.Run.{Step, executes, collects, step, steps, opened}
use remote_codex.Server.Operations.Frames.{Frames, kept, collect-Keeps}
use remote_codex.Server.Operations.Sending.{Sends, dispatch-Keeps}
use remote_codex.Server.Operations.Permitted.{
  is_allowed, all_allowed, is_granted, valid_allowed, freer, passed,
}
use remote_codex.Json.Puts.{find-put, put_found}

module _ (o : Outside) (r : Runtime) where
  abbrev names : String → String → Bool
  names = o.names_directory

  abbrev Good : Bool → Value → Type 0
  Good free message = is_allowed names r free message ≡ true

  free_le : (free : Bool) → (free && not free) ≡ false
  free_le free = ground arith

  -- The id that the code puts into a call does not change what is allowed.
  put-Good :
      (free : Bool) (id : Value) (f : Fields)
      → Good free (object f)
      → Good free (object (put "id" id f))
  put-Good free id f good =
      let method = find-put "method" "id" id f refl in
      let params = find-put "params" "id" id f refl in
      let result = find-put "result" "id" id f refl in
      let error = find-put "error" "id" id f refl in
      let named = put_found "id" id f in
      rw (method, params, result, error, named)
        (freer names r free free (as_str (or_null (find "method" f))) (or_null (find "params" f)) _
          _ (free_le free)
          (answers (is_some (find "id" f)) (is_some (find "result" f) || is_some (find "error" f)))
          good)
    where
      answers : (i b : Bool) → ((i && b) && not b) ≡ false
      answers i b = ground arith

  named-Good :
      (free : Bool) (message id : Value)
      → Good free message
      → Good free (with_field message "id" id)
  named-Good free (object f) id good = put-Good free id f good
  named-Good free (null) id good = good
  named-Good free (boolean b) id good = good
  named-Good free (number text) id good = good
  named-Good free (string text) id good = good
  named-Good free (array items) id good = good

  check-Good :
      (channel operation : String) (message : Value) (a : Option CommandApproval)
      (p : Option SessionPermissions)
      → check o r channel operation message a p ≡ ok tt
      → Good (is_some a || is_some p) message
  unfolding check
  check-Good channel operation message (some a) (some p) same = absurd (cc)
  check-Good channel operation message none (some p) same =
      valid_allowed names r message false true (passed _ _ _ same).1
  check-Good channel operation message (some a) none same =
      valid_allowed names r message true false (passed _ _ _ same).1
  check-Good channel operation message none none same =
      valid_allowed names r message false false same

  abbrev Allowed : Bool → Channel → Type 0
  Allowed free c = all_allowed names r free c.sent ≡ true

  Allowed-Frames : (free : Bool) → Frames (Allowed free)
  Allowed-Frames free = record {
    on_fates = λ c l p. p;
    on_replay = λ c l p. p;
    on_jobs = λ c l p. p;
    on_pending = λ c l p. p;
    on_approvals = λ c l p. p;
    on_permissions = λ c l p. p;
    on_update = λ c name f p. p;
  }

  Allowed-Sends :
      (free : Bool) (operation : String) → Sends operation (Good free) (Allowed free) (Allowed free)
  Allowed-Sends free operation = record {
    before = Allowed-Frames free;
    between = Allowed-Frames free;
    forget = λ c p. p;
    claims = λ digest c p gone. p;
    sends = λ message c good p. rw good p;
  }

  module _ (channel : String) (free : Bool) where
    step-Allowed :
        (s : Step) (c : Channel)
        → (is_granted s && not free) ≡ false
        → Allowed free c
        → Allowed free (step o r channel s c)
    unfolding step
    step-Allowed (executes name message a p) c le h =
        kept (Allowed free) (dispatch o r channel name message a p c) (
          (dispatch-Keeps o name (Allowed-Sends free name) r channel message a p (λ checked.
              let good =
                freer names r (is_some a || is_some p) free (as_str (at message "method"))
                  (at message "params") _ _ le (free_le (is_response message))
                  (check-Good channel name message a p checked) in
              (good, named-Good free message (string name) good))).run
            c h)
    step-Allowed (collects value) c le h =
        kept (Allowed free) (collect o value c)
          ((collect-Keeps o (Allowed free) (Allowed-Frames free) value).run c h)

    steps-Allowed :
        (l : List Step) (c : Channel)
        → (any is_granted l && not free) ≡ false
        → Allowed free c
        → Allowed free (steps o r channel l c)
    unfolding steps
    steps-Allowed [] c le h = h
    steps-Allowed (s ∷ l) c le h =
        steps-Allowed l (step o r channel s c) (rest_of (is_granted s) (any is_granted l) le)
          (step-Allowed s c (first_of (is_granted s) (any is_granted l) le) h)
      where
        rest_of : (a b : Bool) → ((a || b) && not free) ≡ false → (b && not free) ≡ false
        rest_of a b le = ground arith

        first_of : (a b : Bool) → ((a || b) && not free) ≡ false → (a && not free) ≡ false
        first_of a b le = ground arith

  -- After any requests and answers, and whatever statements and messages fail, each message that
  -- was sent to the executor is a response or a call of a permitted method, a process is started
  -- without the credentials of the account, and, where no request carried an approval or a
  -- permission and the environment is not unrestricted, files are changed only in a managed sandbox
  -- and a process is started in one or by a command line of the configuration.
  pub sent_allowed :
      (channel : String) (replay : Replay) (fates : List Fate) (l : List Step)
      → all_allowed o.names_directory r
          (any is_granted l)
          (steps o r channel l (opened replay fates)).sent
        ≡ true
  sent_allowed channel replay fates l =
      steps-Allowed channel (any is_granted l) l (opened replay fates) (free_le (any is_granted l))
        refl
