-- ===== src/AgentCore/Enrolment.antt =====
-- internal/agentcore/agent.go: `loadOrRegister`, `registerWithRetry` and `register`. The server's
-- answers, the file system's and the context's cancellation are inputs.
use seine.Prelude.{
  String, Bool, true, false, Option, none, some, List, [], ◌∷◌, ◌==◌, if◌then◌else◌,
}
use seine.Prelude.Result.{Result, ok, err}
use seine.Api.{RegisterRequest, RegisterResponse}
use seine.ControlPlane.Auth.{Code, invalid_argument, unauthenticated, permission_denied}
use seine.AgentCore.Config.{Config}

-- The error of a call: a status code of the server, or one that the transport made.
pub data CallError : Type 0 where
  coded : Code → CallError
  transport : CallError

pub data AgentError : Type 0 where
  call : CallError → AgentError
  empty_auth_token persist_token read_token no_token cancelled : AgentError

-- `a.authToken` and the file at `a.tokenPath`; `none` where there is no file.
pub record Identity : Type 0 where
  pub auth_token : String
  pub token_file : Option String

-- One Register call: the server's answer, whether the token's file can be written, and what a failing
-- write leaves of it: the old file, a part of the new one, or none.
pub record Attempt : Type 0 where
  pub answer : Result CallError RegisterResponse
  pub writable : Bool
  pub torn : Option String

unfoldable pub register_request : Config → String → String → RegisterRequest
register_request cfg public_key agent_version = record {
  name = cfg.name;
  bootstrap_token = cfg.bootstrap_token;
  public_key = public_key;
  endpoint = cfg.advertised_endpoint;
  agent_version = agent_version;
}

abbrev take_token : Bool → Option String → String → Identity → Option AgentError × Identity
take_token writable torn token a =
    if token == ""
    then (some empty_auth_token, a)
    else if writable
    then (none, record { auth_token = token; token_file = some token })
    else (some persist_token, record { auth_token = token; token_file = torn })

unfoldable pub register : Attempt → Identity → Option AgentError × Identity
register attempt a = elim attempt.answer [
  | err e ↦ (some (call e), a)
  | ok resp ↦ take_token attempt.writable attempt.torn resp.auth_token a
]

-- `status.Code(err)` is one of the three that abort.
unfoldable pub is_permanent : AgentError → Bool
is_permanent (call (coded permission_denied)) = true
is_permanent (call (coded unauthenticated)) = true
is_permanent (call (coded invalid_argument)) = true
is_permanent _ = false

-- What the loop has come to.
pub data Outcome : Type 0 where
  registered waiting : Outcome
  aborted : AgentError → Outcome

-- A round is an attempt and whether the context is cancelled in the wait after it.
unfoldable pub register_with_retry : List (Attempt × Bool) → Identity → Outcome × Identity
unfolding register is_permanent
register_with_retry [] a = (waiting, a)
register_with_retry ((attempt, cancelled?) ∷ rounds) a =
    let tried = register attempt a in
    let others = register_with_retry rounds tried.1 in
    elim (tried.0) [
      | none ↦ (registered, tried.1)
      | some e ↦
          if is_permanent e
          then (aborted e, tried.1)
          else if cancelled?
          then (aborted cancelled, tried.1)
          else others
    ]

-- What `os.ReadFile` of the token's path returns.
pub data TokenFile : Type 0 where
  stored : String → TokenFile
  missing unreadable : TokenFile

unfoldable pub load_or_register :
    TokenFile → String → List (Attempt × Bool) → Identity → Outcome × Identity
unfolding register_with_retry
load_or_register (stored token) bootstrap_token rounds a =
    (registered, record a { auth_token = token })
load_or_register unreadable bootstrap_token rounds a = (aborted read_token, a)
load_or_register missing bootstrap_token rounds a =
    if bootstrap_token == "" then (aborted no_token, a) else register_with_retry rounds a
