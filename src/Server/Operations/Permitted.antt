-- ===== src/Server/Operations/Permitted.antt =====
-- Which messages of crates/server/src/execution/operations.rs reach the executor.
use package.text.Mathlib.Text.{◌==◌ as str_eq}
use remote_codex.Base.{
  String, ◌≡◌, refl, Bool, true, false, not, ◌&&◌, ◌||◌, Option, none, some, List, [], ◌∷◌, Result,
  ok, err, if◌then◌else◌, is_some, arith,
}
use remote_codex.Session.Errors.{Fault}
use remote_codex.Json.{Value, at, as_str}
use remote_codex.Server.Policy.{
  Runtime, mutates_files, managed, is_response, permitted_method, forwards_credentials,
  authorized_mcp, validate, validate_call, validate_start, validate_method,
}
use remote_codex.Server.Operations.Run.{Step, executes, collects}

-- A call is of a permitted method, a process is started without the credentials, and unless the
-- environment is unrestricted or something was granted, files are changed and processes are started
-- only in a managed sandbox, or by a command line that is configured.
abbrev pub call_allowed :
    (String → String → Bool) → Runtime → (free : Bool) → String → (params : Value) → Bool
call_allowed names_directory r free method params =
    permitted_method method
    && ((not (mutates_files method) || (r.unrestricted || (free || managed (at params "sandbox"))))
        && (not (str_eq method "process/start")
            || (not (forwards_credentials (at params "env"))
                && (r.unrestricted
                    || (free
                        || (managed (at params "sandbox")
                            || authorized_mcp names_directory r params))))))

abbrev pub allowed :
    (String → String → Bool)
    → Runtime
    → (free : Bool) → Option String
    → (params : Value) → (response : Bool) → Bool
allowed names_directory r free none params response = response
allowed names_directory r free (some method) params response =
    call_allowed names_directory r free method params

abbrev pub is_allowed : (String → String → Bool) → Runtime → (free : Bool) → Value → Bool
is_allowed names_directory r free message =
    allowed names_directory r free (as_str (at message "method")) (at message "params")
      (is_response message)

-- Every message that was sent.
abbrev pub all_allowed :
    (String → String → Bool) → Runtime → (free : Bool) → List (String × Value) → Bool
all_allowed names_directory r free [] = true
all_allowed names_directory r free ((operation, message) ∷ sent) =
    is_allowed names_directory r free message && all_allowed names_directory r free sent

abbrev pub is_granted : Step → Bool
is_granted (executes operation message a p) = is_some a || is_some p
is_granted (collects value) = false

pub passed :
    (b : Bool) (e : Fault) (rest : Result Fault (Unit {0}))
    → (if b then err e else rest) ≡ ok tt
    → (b ≡ false) × (rest ≡ ok tt)
passed true e rest same = absurd (cc)
passed false e rest same = (refl, same)

asked :
    (b : Bool) (rest : Result Fault (Unit {0}))
    → (if b then rest else ok tt) ≡ ok tt
    → b ≡ true
    → rest ≡ ok tt
asked true rest same held = same
asked false rest same held = absurd (cc)

file_part :
    (b u f m a : Bool)
    → (b && (not u && (not f && not m))) ≡ false
    → (not b || (u || ((a || f) || m))) ≡ true
file_part b u f m a h = ground arith

sandbox_part :
    (u f m q a : Bool)
    → (not u && (not f && (not m && (not q && not a)))) ≡ false
    → (u || ((a || f) || (m || q))) ≡ true
sandbox_part u f m q a h = ground arith

start_part : (s c u : Bool) → (s ≡ true → (c ≡ false) × (u ≡ true)) → (not s || (not c && u)) ≡ true
start_part false c u k = refl
start_part true c u k = let h = k refl in rw h.0 h.1

both : (a x y : Bool) → not a ≡ false → x ≡ true → y ≡ true → (a && (x && y)) ≡ true
both true x y h k l = rw k l
both false x y h k l = absurd (cc)

more_of :
    (a x y x2 y2 : Bool)
    → (x ≡ true → x2 ≡ true)
    → (y ≡ true → y2 ≡ true)
    → (a && (x && y)) ≡ true
    → (a && (x2 && y2)) ≡ true
more_of true true y x2 y2 k l h = rw (k refl) (l h)
more_of true false y x2 y2 k l h = absurd (cc)
more_of false x y x2 y2 k l h = absurd (cc)

freer_file :
    (b u f m g : Bool)
    → (f && not g) ≡ false
    → (not b || (u || (f || m))) ≡ true
    → (not b || (u || (g || m))) ≡ true
freer_file b u f m g le h = ground arith

freer_start :
    (s c u f m g : Bool)
    → (f && not g) ≡ false
    → (not s || (c && (u || (f || m)))) ≡ true
    → (not s || (c && (u || (g || m)))) ≡ true
freer_start s c u f m g le h = ground arith

module _ (names_directory : String → String → Bool) (r : Runtime) where
  call_valid :
      (method : String) (message : Value) (approved full : Bool)
      → validate_call names_directory r method message approved full ≡ ok tt
      → call_allowed names_directory r (approved || full) method (at message "params") ≡ true
  unfolding validate_call validate_start
  call_valid method message approved full valid =
      let params = at message "params" in
      let permitted = passed (not (permitted_method method)) _ _ valid in
      let filed =
        passed
          (mutates_files method
            && (not r.unrestricted && (not full && not (managed (at params "sandbox")))))
          _ _ permitted.1 in
      both (permitted_method method) _ _ permitted.0
        (file_part (mutates_files method) r.unrestricted full (managed (at params "sandbox"))
          approved filed.0)
        (start_part (str_eq method "process/start") (forwards_credentials (at params "env")) _
          (λ starts.
            let sandboxed =
              passed
                (not r.unrestricted
                  && (not full
                      && (not (managed (at params "sandbox"))
                          && (not (authorized_mcp names_directory r params) && not approved))))
                _ _ (asked (str_eq method "process/start") _ filed.1 starts) in
            let kept_back = passed (forwards_credentials (at params "env")) _ _ sandboxed.1 in
            (
              kept_back.0,
              sandbox_part r.unrestricted full (managed (at params "sandbox"))
                  (authorized_mcp names_directory r params) approved sandboxed.0,
            )))

  pub valid_allowed :
      (message : Value) (approved full : Bool)
      → validate names_directory r message approved full ≡ ok tt
      → is_allowed names_directory r (approved || full) message ≡ true
  unfolding validate validate_method
  valid_allowed message approved full valid = by_method (as_str (at message "method")) valid
    where
      by_method :
          (method : Option String)
          → validate_method names_directory r method message approved full ≡ ok tt
          → allowed names_directory r
              (approved || full)
              method
              (at message "params")
              (is_response message)
            ≡ true
      by_method none valid = ground arith
      by_method (some method) valid = call_valid method message approved full valid

  pub freer :
      (free more : Bool) (method : Option String) (params : Value) (response answer : Bool)
      → (free && not more) ≡ false
      → (response && not answer) ≡ false
      → allowed names_directory r free method params response ≡ true
      → allowed names_directory r more method params answer ≡ true
  freer free more none params response answer le ge h = ground arith
  freer free more (some method) params response answer le ge h =
      more_of (permitted_method method) _ _ _ _
        (freer_file (mutates_files method) r.unrestricted free (managed (at params "sandbox")) more
          le)
        (freer_start (str_eq method "process/start") (not (forwards_credentials (at params "env")))
          r.unrestricted free
          (managed (at params "sandbox") || authorized_mcp names_directory r params) more le)
        h
