-- ===== src/ControlPlane/Server.antt =====
-- internal/controlplane/server.go: enrolment and heartbeats. The state is the store's table; the
-- spec, the clock, the random source and the driver's faults are inputs of a call.
use seine.Prelude.{String, Bool, not, Option, none, some, List, [], ◌∷◌, ◌&&◌, ◌==◌, if◌then◌else◌}
use seine.Prelude.Result.{Result, ok, err}
use seine.Api.{
  Role, role_unspecified, role_hub, role_spoke, Time, RegisterRequest, RegisterResponse,
  HeartbeatRequest, HeartbeatResponse, PeerInfo,
}
use seine.Spec.Types.{Document, Hub}
use seine.Store
use seine.Store.{Table, Digest, upsert_agent, update_heartbeat, list_agents}
use seine.ControlPlane.Roles.{resolve_role, tunnel_ip_for}
use seine.ControlPlane.Auth.{
  Code, constant_time_equal, invalid_argument, unauthenticated, permission_denied, unavailable,
  internal,
}

-- `SpecProvider.Current`: `none` for an error, otherwise the document and its commit.
abbrev pub Current : Type 0
Current = Option (Option Document × String)

-- What a call of Register meets: the two random texts, the clock, and a fault of the driver.
pub record RegisterEnv : Type 0 where
  pub agent_id : Option String
  pub auth_token : Option String
  pub now : Time
  pub fault : Bool

pub record HeartbeatEnv : Type 0 where
  pub now : Time
  pub update_fault : Bool
  pub list_fault : Bool

pub data ConfigError : Type 0 where
  store_required spec_required token_required : ConfigError

-- NewServer; the flags say whether the store and the spec provider are there.
unfoldable pub new_server : Bool → Bool → String → Result ConfigError String
new_server has_store has_spec bootstrap_token =
    if not has_store
    then err store_required
    else if not has_spec
    then err spec_required
    else if bootstrap_token == ""
    then err token_required
    else ok bootstrap_token

abbrev pub register_method : String
register_method = "/seine.controlplane.v1.ControlPlane/Register"

abbrev pub skip_auth_methods : List String
skip_auth_methods = register_method ∷ []

-- A hub that advertises nothing gets the endpoint of the spec.
unfoldable pub advertised : Role → Option Hub → String → String
advertised role_hub (some hub) endpoint = if endpoint == "" then hub.endpoint else endpoint
advertised role_hub none endpoint = endpoint
advertised role_spoke hub endpoint = endpoint
advertised role_unspecified hub endpoint = endpoint

module _ (hash_token : String → Digest) where
  -- the row that Register writes
  unfoldable pub enrolled : RegisterEnv → RegisterRequest → String → String → String → Store.Agent
  enrolled env req endpoint id tok = record {
    id = id;
    name = req.name;
    public_key = req.public_key;
    endpoint = endpoint;
    auth_token_hash = hash_token tok;
    created_at = env.now;
    last_seen_at = env.now;
  }

  -- the part after the role is known
  unfoldable pub enrol :
      RegisterEnv → RegisterRequest → String → Table → Result Code RegisterResponse × Table
  unfolding enrolled upsert_agent
  enrol env req endpoint t = elim env.agent_id [
    | none ↦ (err internal, t)
    | some id ↦ elim env.auth_token [
      | none ↦ (err internal, t)
      | some tok ↦
          let done = upsert_agent env.fault env.now.unix (enrolled env req endpoint id tok) t in
          elim (done.0) [
            | some e ↦ (err internal, done.1)
            | none ↦ (ok (record { auth_token = tok }), done.1)
          ]
    ]
  ]

  abbrev pub by_role :
      RegisterEnv
      → RegisterRequest
      → Table
      → Role
      → Option Hub
      → Result Code RegisterResponse × Table
  by_role env req t role_unspecified hub = (err permission_denied, t)
  by_role env req t role_spoke hub = enrol env req (advertised role_spoke hub req.endpoint) t
  by_role env req t role_hub hub = enrol env req (advertised role_hub hub req.endpoint) t

  unfoldable pub register :
      String
      → Current
      → RegisterEnv
      → RegisterRequest
      → Table
      → Result Code RegisterResponse × Table
  unfolding enrol advertised resolve_role
  register bootstrap_token current env req t =
      if req.name == ""
      then (err invalid_argument, t)
      else if req.public_key == ""
      then (err invalid_argument, t)
      else if not (constant_time_equal req.bootstrap_token bootstrap_token)
      then (err unauthenticated, t)
      else elim current [
        | none ↦ (err unavailable, t)
        | some (doc, commit) ↦
            let resolved = resolve_role doc req.name in by_role env req t resolved.0 resolved.1
      ]

-- the entry of a registered agent, with the caller's endpoint as it was just reported
unfoldable pub peer_info :
    Option Document → Store.Agent → HeartbeatRequest → Role → Store.Agent → PeerInfo
unfolding tunnel_ip_for
peer_info doc caller req role a = record {
  name = a.name;
  public_key = a.public_key;
  endpoint = if a.id == caller.id && not (req.endpoint == "") then req.endpoint else a.endpoint;
  tunnel_ip = tunnel_ip_for doc a.name;
  last_seen = a.last_seen_at;
  role = role;
}

abbrev is_unspecified : Role → Bool
is_unspecified role_unspecified = Bool.true
is_unspecified role_spoke = Bool.false
is_unspecified role_hub = Bool.false

-- the loop over the registered agents
unfoldable pub peer_infos :
    Option Document → Store.Agent → HeartbeatRequest → List Store.Agent → List PeerInfo
unfolding peer_info resolve_role
peer_infos doc caller req [] = []
peer_infos doc caller req (a ∷ rest) =
    let role = (resolve_role doc a.name).0 in
    let others = peer_infos doc caller req rest in
    if is_unspecified role then others else peer_info doc caller req role a ∷ others

unfoldable pub heartbeat :
    Current
    → HeartbeatEnv
    → Option Store.Agent
    → HeartbeatRequest
    → Table
    → Result Code HeartbeatResponse × Table
unfolding update_heartbeat list_agents peer_infos
heartbeat current env none req t = (err unauthenticated, t)
heartbeat current env (some caller) req t = elim current [
  | none ↦ (err unavailable, t)
  | some (doc, commit) ↦
      let updated = update_heartbeat env.update_fault caller.id req.endpoint env.now t in
      elim (updated.0) [
        | some e ↦ (err internal, updated.1)
        | none ↦ elim (list_agents env.list_fault updated.1) [
          | err e ↦ (err internal, updated.1)
          | ok all ↦ (
            ok (record { spec_commit = commit; peers = peer_infos doc caller req all }),
            updated.1,
          )
        ]
      ]
]
