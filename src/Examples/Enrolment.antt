-- ===== src/Examples/Enrolment.antt =====
-- The store's and the server's theorems at the sample network. The digest of a token is its text.
use seine.Prelude.{
  String, ◌≡◌, ◌≢◌, refl, ◌⊎◌, ◌↔◌, true, false, none, some, List, [], ◌∷◌, ◌==◌, arith, eq_iff, In,
  if◌then◌else◌, Distinct,
}
use seine.Prelude.Int.{pos}
use seine.Prelude.Result.{Result, ok, err}
use seine.Prelude.Sort.{codes}
use seine.Api.{
  role_spoke, Time, RegisterRequest, RegisterResponse, HeartbeatRequest, HeartbeatResponse,
  PeerInfo,
}
use seine.Store
use seine.Store.{
  Digest, Table, Row, not_found, constraint, upsert_agent, update_heartbeat, get_agent_by_name,
  authenticate_by_token_hash, list_agents,
}
use seine.Store.Registry.{IsRegistry, upsert_agent-IsRegistry}
use seine.Store.Tokens.{
  row_hashes, revoked, get_agent_by_name-upsert_agent, authenticate-upsert_agent_self,
  authenticate-upsert_agent_ne,
}
use seine.ControlPlane.Auth.{Code, unauthenticated, internal, permission_denied, auth_interceptor}
use seine.ControlPlane.Server.{
  Current, RegisterEnv, HeartbeatEnv, register, heartbeat, skip_auth_methods, enrolled,
}
use seine.ControlPlane.Enrolment.{
  IsAdmitted, Authenticates, register_error, register_iff, register-Authenticates,
  register-IsRegistry,
}
use seine.ControlPlane.Access.{decide, refused, auth_interceptor_refuses}
use seine.ControlPlane.Peers.{Reports, heartbeat_peers}
use seine.Examples.Sample.{sample_doc}

abbrev hash : String → Digest
hash = codes

abbrev noon : Time
noon = record { unix = pos 1_700_000_000; nanos = 0 }

abbrev current : Current
current = some (some sample_doc, "c0ffee")

abbrev env : RegisterEnv
env = record { agent_id = some "id-1"; auth_token = some "tok-1"; now = noon; fault = false }

abbrev request : RegisterRequest
request = record {
  name = "laptop";
  bootstrap_token = "boot";
  public_key = "key-1";
  endpoint = "";
  agent_version = "dev";
}

abbrev stranger : RegisterRequest
stranger = record request { name = "stranger" }

abbrev response : RegisterResponse
response = record { auth_token = "tok-1" }

abbrev row : String → String → String → Row
row id name token = record {
  id = id;
  name = name;
  public_key = "key-0";
  endpoint = "";
  auth_token_hash = hash token;
  created_at = pos 5;
  last_seen_at = pos 5;
}

abbrev table : Table
table = row "id-7" "laptop" "old" ∷ row "id-8" "server" "srv" ∷ []

table-IsRegistry : IsRegistry table
table-IsRegistry = record {
  names = ground (arith, eq_iff "laptop" "server");
  ids = ground (arith, eq_iff "id-7" "id-8");
}

table_hashes : Distinct (row_hashes table)
table_hashes = ground arith

abbrev newcomer : Store.Agent
newcomer = record {
  id = "id-1";
  name = "laptop";
  public_key = "key-1";
  endpoint = "";
  auth_token_hash = hash "tok-1";
  created_at = noon;
  last_seen_at = noon;
}

newcomer_written : (upsert_agent false (pos 1_700_000_000) newcomer table).0 ≡ none
unfolding upsert_agent
newcomer_written = refl

fresh : ¬ In (hash "tok-1") (row_hashes table)
fresh = ground arith

request_granted : (register hash "boot" current env request table).0 ≡ ok response
unfolding register
request_granted = refl

stranger_refused : (register hash "boot" current env stranger table).0 ≡ err permission_denied
unfolding register
stranger_refused = refl

register-Authenticates_example :
    IsAdmitted "boot" current request
    × Authenticates hash (register hash "boot" current env request table).1 "tok-1" request
register-Authenticates_example =
    register-Authenticates hash "boot" current env request table response request_granted fresh

register_error_example : (register hash "boot" current env stranger table).1 ≡ table
register_error_example = register_error hash "boot" current env stranger table stranger_refused

register-IsRegistry_example : IsRegistry (register hash "boot" current env request table).1
register-IsRegistry_example =
    register-IsRegistry hash "boot" current env request table table-IsRegistry

stored :
    (endpoint : String)
    → (upsert_agent false
        (pos 1_700_000_000)
        (enrolled hash env request endpoint "id-1" "tok-1")
        table).0
      ≡ none
unfolding upsert_agent enrolled
stored endpoint = refl

register_iff_example :
    ((register hash "boot" current env request table).0 ≡ ok (record { auth_token = "tok-1" }))
    ↔ IsAdmitted "boot" current request
register_iff_example =
    register_iff hash "boot" current env request table "id-1" "tok-1" refl refl stored

get_agent_by_name-upsert_agent_example :
    get_agent_by_name false "server" (upsert_agent false (pos 1_700_000_000) newcomer table).1
    ≡ get_agent_by_name false "server" table
get_agent_by_name-upsert_agent_example =
    get_agent_by_name-upsert_agent (pos 1_700_000_000) newcomer table "server" newcomer_written

authenticate-upsert_agent_self_example :
    authenticate_by_token_hash false
      (hash "tok-1")
      (upsert_agent false (pos 1_700_000_000) newcomer table).1
    ≡ get_agent_by_name false "laptop" (upsert_agent false (pos 1_700_000_000) newcomer table).1
authenticate-upsert_agent_self_example =
    authenticate-upsert_agent_self (pos 1_700_000_000) newcomer table newcomer_written fresh

old_digest : ◌≢◌ {A = Digest} (hash "tok-1") (hash "old")
old_digest = ground arith

authenticate-upsert_agent_ne_example :
    authenticate_by_token_hash false
      (hash "old")
      (upsert_agent false (pos 1_700_000_000) newcomer table).1
    ≡ revoked "laptop" (authenticate_by_token_hash false (hash "old") table)
authenticate-upsert_agent_ne_example =
    authenticate-upsert_agent_ne (pos 1_700_000_000) newcomer table (hash "old") newcomer_written
      table-IsRegistry table_hashes old_digest

upsert_agent-IsRegistry_example :
    IsRegistry (upsert_agent false (pos 1_700_000_000) newcomer table).1
upsert_agent-IsRegistry_example =
    upsert_agent-IsRegistry false (pos 1_700_000_000) newcomer table table-IsRegistry

abbrev thief : Store.Agent
thief = record newcomer { id = "id-8" }

thief_refused : (upsert_agent false (pos 1_700_000_000) thief table).0 ≡ some constraint
unfolding upsert_agent
thief_refused = refl

abbrev headers : String → List String
headers key = if key == "authorization" then "Bearer old" ∷ [] else []

abbrev heartbeat_method : String
heartbeat_method = "/seine.controlplane.v1.ControlPlane/Heartbeat"

abbrev laptop_agent : Store.Agent
laptop_agent = record {
  id = "id-7";
  name = "laptop";
  public_key = "key-0";
  endpoint = "";
  auth_token_hash = hash "old";
  created_at = record { unix = pos 5; nanos = 0 };
  last_seen_at = record { unix = pos 5; nanos = 0 };
}

abbrev no_headers : String → List String
no_headers key = []

anonymous_refused :
    decide hash false table skip_auth_methods heartbeat_method (some no_headers)
    ≡ refused unauthenticated
unfolding auth_interceptor
anonymous_refused = refl

auth_interceptor_refuses_example :
    (unauthenticated ≡ unauthenticated) ⊎ ((unauthenticated ≡ internal) × (false ≡ true))
auth_interceptor_refuses_example =
    auth_interceptor_refuses hash false table skip_auth_methods heartbeat_method (some no_headers)
      unauthenticated anonymous_refused

abbrev beat : HeartbeatRequest
beat = record { endpoint = "198.51.100.7:51820" }

abbrev beat_env : HeartbeatEnv
beat_env = record { now = noon; update_fault = false; list_fault = false }

abbrev beaten : Result Code HeartbeatResponse × Table
beaten = heartbeat current beat_env (some laptop_agent) beat table

abbrev beat_response : HeartbeatResponse
beat_response = record {
  spec_commit = "c0ffee";
  peers =
      record {
        name = "laptop";
        public_key = "key-0";
        endpoint = "198.51.100.7:51820";
        tunnel_ip = "10.0.0.2";
        last_seen = noon;
        role = role_spoke;
      }
      ∷ record {
        name = "server";
        public_key = "key-0";
        endpoint = "";
        tunnel_ip = "10.0.0.3";
        last_seen = record { unix = pos 5; nanos = 0 };
        role = role_spoke;
      }
      ∷ [];
}

beat_answered : beaten.0 ≡ ok beat_response
unfolding heartbeat
beat_answered = refl

heartbeat_peers_example :
    (all : List Store.Agent) × (list_agents false beaten.1 ≡ ok all)
    × (beat_response.spec_commit ≡ "c0ffee")
    × ((p : PeerInfo)
        → In p beat_response.peers ↔ Reports (some sample_doc) laptop_agent beat all p)
heartbeat_peers_example =
    heartbeat_peers (some sample_doc) "c0ffee" beat_env laptop_agent beat table beat_response
      beat_answered
