-- ===== src/Server/Policy.antt =====
-- crates/server/src/execution/policy.rs and crates/protocol/src/approval.rs: which messages may
-- reach the executor. That a URL names a directory is the argument `names_directory`.
use package.text.Mathlib.Text.{◌==◌ as str_eq}
use remote_codex.Base.{
  ℕ, String, Bool, false, not, ◌&&◌, ◌||◌, Option, none, some, List, [], ◌∷◌, Result, ok, err,
  if◌then◌else◌, any, is_some,
}
use remote_codex.Config.Text.{text, starts_with}
use remote_codex.Session.Errors.{Fault}
use remote_codex.Json.{
  Value, array, object, Fields, get, find, at, as_str, is_text, is_texts, is_null,
}
use remote_codex.Server.{refusal}

pub record ExecutionCommand : Type 0 where
  pub argv : List String
  pub cwd : String

-- `Runtime` of config.rs, as far as execution looks at it.
pub record Runtime : Type 0 where
  pub unrestricted : Bool
  pub mcp : List ExecutionCommand
  pub background : Bool
  pub grace : ℕ

pub record SessionPermissions : Type 0 where
  pub id : String
  pub channel : String
  pub thread : String

pub record CommandApproval : Type 0 where
  pub id : String
  pub channel : String
  pub thread : String
  pub turn : String
  pub item : String
  pub argv : List String
  pub cwd : String

abbrev pub one_of : List String → String → Bool
one_of names s = any (str_eq s) names

abbrev pub text_is : Option String → String → Bool
text_is none t = false
text_is (some s) t = str_eq s t

abbrev is_empty : String → Bool
is_empty s = str_eq s ""

-- `message.pointer("/params/env/CODEX_THREAD_ID")`
abbrev pub thread_of : Value → Option String
thread_of message = as_str (at (at (at message "params") "env") "CODEX_THREAD_ID")

abbrev pub mutates_files : String → Bool
mutates_files = one_of ("fs/writeFile" ∷ "fs/createDirectory" ∷ "fs/remove" ∷ "fs/copy" ∷ [])

abbrev grants_method : SessionPermissions → Value → Option String → Bool
grants_method p message none = false
grants_method p message (some method) =
    if str_eq method "process/start"
    then text_is (thread_of message) p.thread
    else mutates_files method

-- `SessionPermissions::matches`
unfoldable pub permissions_match : SessionPermissions → String → Value → Bool
permissions_match p channel message =
    not (is_empty p.id || (is_empty p.thread || not (str_eq p.channel channel)))
    && grants_method p message (as_str (at message "method"))

unfoldable pub approval_matches : CommandApproval → Value → Bool
approval_matches a message =
    is_text (at message "method") "process/start"
    && (is_texts (at (at message "params") "argv") a.argv
        && (text_is (as_str (at (at message "params") "cwd")) a.cwd
            && (is_null (at (at message "params") "arg0") && text_is (thread_of message) a.thread)))

-- `CommandApproval::valid_for`
unfoldable pub valid_for : CommandApproval → String → String → Value → Bool
unfolding approval_matches
valid_for a channel operation message =
    str_eq a.channel channel
    && (str_eq a.id operation
        && (not (is_empty a.thread)
            && (not (is_empty a.turn) && (not (is_empty a.item) && approval_matches a message))))

abbrev pub managed : Value → Bool
managed sandbox =
    text_is (as_str (at (at sandbox "permissions") "type")) "managed"
    && text_is (as_str (at (at (at sandbox "permissions") "file_system") "type")) "restricted"

abbrev pub is_response : Value → Bool
is_response message =
    is_some (get message "id") && (is_some (get message "result") || is_some (get message "error"))

abbrev pub permitted_method : String → Bool
permitted_method method =
    one_of
      ("initialize" ∷ "initialized" ∷ "environment/info" ∷ "environment/status"
        ∷ "environmentConfig/read" ∷ "capabilityRoots/discoverV1" ∷ [])
      method
    || any (λ prefix. starts_with (text prefix) (text method))
        ("process/" ∷ "fs/" ∷ "http/" ∷ "network/" ∷ "shell/" ∷ [])

abbrev pub forbidden_names : List String
forbidden_names = "OPENAI_API_KEY" ∷ "CODEX_API_KEY" ∷ "CODEX_ACCESS_TOKEN" ∷ "CODEX_AUTH_JSON" ∷ []

abbrev pub holds_any : List String → Fields → Bool
holds_any names fields = any (λ name. is_some (find name fields)) names

-- `params["env"].as_object()` with one of the names.
abbrev pub forwards_credentials : Value → Bool
forwards_credentials (object fields) = holds_any forbidden_names fields
forwards_credentials _ = false

abbrev cwd_is : (String → String → Bool) → Option String → String → Bool
cwd_is names_directory none cwd = false
cwd_is names_directory (some url) cwd = names_directory url cwd

abbrev authorized_argv : (String → String → Bool) → List ExecutionCommand → Value → Value → Bool
authorized_argv names_directory commands params (array items) =
    any
      (λ c.
        cwd_is names_directory (as_str (at params "cwd")) c.cwd && is_texts (array items) c.argv)
      commands
authorized_argv names_directory commands params _ = false

module _ (names_directory : String → String → Bool) (r : Runtime) where
  unfoldable pub authorized_mcp : Value → Bool
  authorized_mcp params = authorized_argv names_directory r.mcp params (at params "argv")

  abbrev denied : String → String → Result Fault (Unit {0})
  denied code message = err (refusal code message)

  unfoldable pub validate_start : Value → (approved full : Bool) → Result Fault (Unit {0})
  unfolding authorized_mcp
  validate_start params approved full =
      if not r.unrestricted
        && (not full
            && (not (managed (at params "sandbox"))
                && (not (authorized_mcp params) && not approved)))
      then denied "SANDBOX_REQUIRED"
          "this environment requires sandboxed execution or an explicit one-time command approval"
      else if forwards_credentials (at params "env")
      then denied "CREDENTIAL_FORWARDING_DENIED"
          "Codex account credentials cannot be forwarded to the execution environment"
      else ok tt

  unfoldable pub validate_call : String → Value → (approved full : Bool) → Result Fault (Unit {0})
  unfolding validate_start
  validate_call method message approved full =
      if not (permitted_method method)
      then denied "EXECUTION_METHOD_DENIED" "only execution environment methods are permitted"
      else if mutates_files method
          && (not r.unrestricted
              && (not full && not (managed (at (at message "params") "sandbox"))))
      then denied "SANDBOX_REQUIRED" "filesystem mutation requires the configured sandbox"
      else if str_eq method "process/start"
      then validate_start (at message "params") approved full
      else ok tt

  unfoldable pub validate_method :
      Option String → Value → (approved full : Bool) → Result Fault (Unit {0})
  unfolding validate_call
  validate_method none message approved full =
      if is_response message then ok tt else denied "INVALID_EXECUTION" "invalid execution response"
  validate_method (some method) message approved full = validate_call method message approved full

  unfoldable pub validate : Value → (approved full : Bool) → Result Fault (Unit {0})
  unfolding validate_method
  validate message approved full =
      validate_method (as_str (at message "method")) message approved full
