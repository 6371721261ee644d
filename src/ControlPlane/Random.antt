-- ===== src/ControlPlane/Random.antt =====
-- internal/controlplane/auth.go: the random texts of an enrolment, and the agent of a context. The
-- random source's bytes, `none` for its error, and the two encoders are parameters.
use seine.Prelude.{ℕ, String, Option, none, some, List}
use seine.Store

-- `base64` is `base64.RawURLEncoding.EncodeToString`; the buffer has 32 bytes.
unfoldable pub generate_auth_token : (List ℕ → String) → Option (List ℕ) → Option String
generate_auth_token base64 none = none
generate_auth_token base64 (some buf) = some (base64 buf)

-- `hex` is `hex.EncodeToString`; the buffer has 16 bytes.
unfoldable pub generate_agent_id : (List ℕ → String) → Option (List ℕ) → Option String
generate_agent_id hex none = none
generate_agent_id hex (some buf) = some (hex buf)

-- A context, as far as its `agentCtxKey` goes.
abbrev pub AgentContext : Type 0
AgentContext = Option Store.Agent

unfoldable pub agent_from_context : AgentContext → Option Store.Agent
agent_from_context ctx = ctx

unfoldable pub with_agent : AgentContext → Store.Agent → AgentContext
with_agent ctx a = some a
