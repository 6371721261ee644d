-- ===== src/ControlPlane/Enrolment.antt =====
-- internal/controlplane/server.go, auth.go: what enrolment grants and to whom.
use seine.Prelude.{
  String, ◌≡◌, ◌≢◌, refl, inl, inr, false, Option, none, some, ◌==◌, arith, eq_iff, Bool-cases,
  Option-cases, In, ◌↔◌,
}
use seine.Prelude.Result.{ok, err, Result-cases}
use seine.Api.{Role, role_unspecified, role_spoke, role_hub, RegisterRequest, RegisterResponse}
use seine.Spec.Types.{Document, Hub}
use seine.Store
use seine.Store.{
  Table, Digest, StoreError, upsert_agent, authenticate_by_token_hash, get_agent_by_name,
}
use seine.Store.Registry.{IsRegistry, upsert_agent-IsRegistry, upsert_agent_error}
use seine.Store.Tokens.{row_hashes, registered}
use seine.ControlPlane.Roles.{resolve_role}
use seine.ControlPlane.Auth.{Code}
use seine.ControlPlane.Server.{Current, RegisterEnv, register, enrol, enrolled, by_role, advertised}

-- The document that the spec provider returned, if it returned one.
abbrev pub known : Current → Option Document
known none = none
known (some (doc, commit)) = doc

-- What a request must bring to be enrolled.
pub record IsAdmitted (bootstrap_token : String) (current : Current) (req : RegisterRequest)
    : Type 0 where
  pub named : req.name ≢ ""
  pub keyed : req.public_key ≢ ""
  pub trusted : req.bootstrap_token ≡ bootstrap_token
  pub loaded : current ≢ none
  pub declared : (resolve_role (known current) req.name).0 ≢ role_unspecified

module _ (hash_token : String → Digest) where
  enrol_error :
      (env : RegisterEnv) (req : RegisterRequest) (endpoint : String) (t : Table) {c : Code}
      → (enrol hash_token env req endpoint t).0 ≡ err c
      → (enrol hash_token env req endpoint t).1 ≡ t
  unfolding enrol
  enrol_error env req endpoint t h = ground (arith, upsert_agent_error env.fault env.now.unix)

  by_role_error :
      (env : RegisterEnv) (req : RegisterRequest) (t : Table) (role : Role) (hub : Option Hub)
      {c : Code}
      → (by_role hash_token env req t role hub).0 ≡ err c
      → (by_role hash_token env req t role hub).1 ≡ t
  by_role_error env req t role_unspecified hub h = refl
  by_role_error env req t role_spoke hub h = enrol_error env req _ t h
  by_role_error env req t role_hub hub h = enrol_error env req _ t h

  -- A registration that is refused leaves the table as it was.
  pub register_error :
      (bootstrap_token : String) (current : Current) (env : RegisterEnv) (req : RegisterRequest)
      (t : Table) {c : Code}
      → (register hash_token bootstrap_token current env req t).0 ≡ err c
      → (register hash_token bootstrap_token current env req t).1 ≡ t
  unfolding register
  register_error bootstrap_token none env req t h = ground arith
  register_error bootstrap_token (some (doc, commit)) env req t h =
      let found = resolve_role doc req.name in
      elim (Bool-cases (req.name == "")) [
        | inl p ↦ ground arith
        | inr p ↦ elim (Bool-cases (req.public_key == "")) [
          | inl q ↦ ground arith
          | inr q ↦ elim (Bool-cases (req.bootstrap_token == bootstrap_token)) [
            | inl r ↦ rw (p, q, r) (by_role_error env req t found.0 found.1 (rw (p, q, r) at h))
            | inr r ↦ rw (p, q, r) refl
          ]
        ]
      ]

  -- An admitted request is enrolled, a hub under the spec's endpoint if it advertises none.
  register-enrol :
      (bootstrap_token : String) (doc : Option Document) (commit : String) (env : RegisterEnv)
      (req : RegisterRequest) (t : Table)
      → IsAdmitted bootstrap_token (some (doc, commit)) req
      → register hash_token bootstrap_token (some (doc, commit)) env req t
        ≡ enrol hash_token env req
            (advertised (resolve_role doc req.name).0 (resolve_role doc req.name).1 req.endpoint)
            t
  unfolding register
  register-enrol bootstrap_token doc commit env req t h = ground (
    arith,
    eq_iff req.name "",
    eq_iff req.public_key "",
    eq_iff req.bootstrap_token bootstrap_token,
  )

  -- The row that an enrolment wrote.
  enrol-ok :
      (env : RegisterEnv) (req : RegisterRequest) (endpoint : String) (t : Table)
      {resp : RegisterResponse}
      → (enrol hash_token env req endpoint t).0 ≡ ok resp
      → (id : String) × (env.agent_id ≡ some id)
        × (env.auth_token ≡ some resp.auth_token)
        × ((enrol hash_token env req endpoint t).1
            ≡ (upsert_agent env.fault env.now.unix
                (enrolled hash_token env req endpoint id resp.auth_token)
                t).1)
        × ((upsert_agent env.fault env.now.unix
              (enrolled hash_token env req endpoint id resp.auth_token)
              t).0
            ≡ none)
  unfolding enrol
  enrol-ok env req endpoint t h = elim (Option-cases env.agent_id) [
    | inl e ↦ absurd (ground arith)
    | inr (id, e) ↦ elim (Option-cases env.auth_token) [
      | inl f ↦ absurd (ground arith)
      | inr (tok, f) ↦
          let written =
            Option-cases
              (upsert_agent env.fault env.now.unix (enrolled hash_token env req endpoint id tok)
                t).0 in
          (id, e, ground arith, ground arith, ground arith)
    ]
  ]

  admits_by_role :
      (env : RegisterEnv) (req : RegisterRequest) (t : Table) (role : Role) (hub : Option Hub)
      {resp : RegisterResponse}
      → (by_role hash_token env req t role hub).0 ≡ ok resp
      → role ≢ role_unspecified
  admits_by_role env req t role_unspecified hub h = cc
  admits_by_role env req t role_spoke hub h = λ e. cc
  admits_by_role env req t role_hub hub h = λ e. cc

  register-IsAdmitted :
      (bootstrap_token : String) (current : Current) (env : RegisterEnv) (req : RegisterRequest)
      (t : Table) {resp : RegisterResponse}
      → (register hash_token bootstrap_token current env req t).0 ≡ ok resp
      → IsAdmitted bootstrap_token current req
  unfolding register
  register-IsAdmitted bootstrap_token none env req t h = absurd (ground arith)
  register-IsAdmitted bootstrap_token (some (doc, commit)) env req t h =
      let found = resolve_role doc req.name in
      elim (Bool-cases (req.name == "")) [
        | inl p ↦ absurd (ground arith)
        | inr p ↦ elim (Bool-cases (req.public_key == "")) [
          | inl q ↦ absurd (ground arith)
          | inr q ↦ elim (Bool-cases (req.bootstrap_token == bootstrap_token)) [
            | inl r ↦ record {
              named = ground (arith, eq_iff req.name "");
              keyed = ground (arith, eq_iff req.public_key "");
              trusted = (eq_iff req.bootstrap_token bootstrap_token).0 r;
              loaded = λ e. cc;
              declared = admits_by_role env req t found.0 found.1 (rw (p, q, r) at h);
            }
            | inr r ↦ absurd (ground arith)
          ]
        ]
      ]

  -- With a working random source and a row that the store accepts, Register hands out the fresh
  -- token exactly to the requests that are admitted: named, with a key, with the bootstrap token, and
  -- declared in a loaded spec.
  pub register_iff :
      (bootstrap_token : String) (current : Current) (env : RegisterEnv) (req : RegisterRequest)
      (t : Table) (id tok : String)
      → env.agent_id ≡ some id
      → env.auth_token ≡ some tok
      → ((endpoint : String)
          → (upsert_agent env.fault env.now.unix (enrolled hash_token env req endpoint id tok) t).0
            ≡ none)
      → ((register hash_token bootstrap_token current env req t).0
          ≡ ok (record { auth_token = tok }))
        ↔ IsAdmitted bootstrap_token current req
  unfolding enrol
  register_iff bootstrap_token none env req t id tok e f stored =
      (λ h. register-IsAdmitted bootstrap_token none env req t h, λ h. absurd (h.loaded refl))
  register_iff bootstrap_token (some (doc, commit)) env req t id tok e f stored = (
    λ h. register-IsAdmitted bootstrap_token (some (doc, commit)) env req t h,
    λ h.
        let endpoint =
          advertised (resolve_role doc req.name).0 (resolve_role doc req.name).1 req.endpoint in
        let written = stored endpoint in
        let enrols = register-enrol bootstrap_token doc commit env req t h in ground arith,
  )

  -- The agent that a digest authenticates as.
  pub record Authenticates (t : Table) (token : String) (req : RegisterRequest) : Type 0 where
    pub agent : Store.Agent
    pub found : authenticate_by_token_hash false (hash_token token) t ≡ ok agent
    pub name : agent.name ≡ req.name
    pub public_key : agent.public_key ≡ req.public_key

  -- After Register has handed out a token whose digest was in no row, that token authenticates as an
  -- agent with the name and the public key of the request, and the request was admitted.
  pub register-Authenticates :
      (bootstrap_token : String) (current : Current) (env : RegisterEnv) (req : RegisterRequest)
      (t : Table) (resp : RegisterResponse)
      → (register hash_token bootstrap_token current env req t).0 ≡ ok resp
      → ¬ In (hash_token resp.auth_token) (row_hashes t)
      → IsAdmitted bootstrap_token current req
        × Authenticates
            (register hash_token bootstrap_token current env req t).1
            resp.auth_token
            req
  register-Authenticates bootstrap_token none env req t resp h fresh =
      absurd ((register-IsAdmitted bootstrap_token none env req t h).loaded refl)
  register-Authenticates bootstrap_token (some (doc, commit)) env req t resp h fresh =
      let admitted = register-IsAdmitted bootstrap_token (some (doc, commit)) env req t h in
      let endpoint =
        advertised (resolve_role doc req.name).0 (resolve_role doc req.name).1 req.endpoint in
      let enrols = register-enrol bootstrap_token doc commit env req t admitted in
      let (id, e, f, table, stored) = enrol-ok env req endpoint t (rw enrols at h) in
      let (agent, found, name, key, _) =
        registered env.fault env.now.unix (enrolled hash_token env req endpoint id resp.auth_token)
          t stored (unfold enrolled in fresh) in
      (
        admitted,
        record {
          agent = agent;
          found = unfold enrolled in rw (enrols, table) found;
          name = unfold enrolled in name;
          public_key = unfold enrolled in key;
        },
      )

  -- A registration, granted or refused, keeps names and ids unique in the store.
  pub register-IsRegistry :
      (bootstrap_token : String) (current : Current) (env : RegisterEnv) (req : RegisterRequest)
      (t : Table)
      → IsRegistry t
      → IsRegistry (register hash_token bootstrap_token current env req t).1
  register-IsRegistry bootstrap_token current env req t v =
      elim (Result-cases (register hash_token bootstrap_token current env req t).0) [
        | inl (c, h) ↦ rw (register_error bootstrap_token current env req t h) v
        | inr (resp, h) ↦ granted current resp h
      ]
    where
      granted :
          (current : Current) (resp : RegisterResponse)
          → (register hash_token bootstrap_token current env req t).0 ≡ ok resp
          → IsRegistry (register hash_token bootstrap_token current env req t).1
      granted none resp h =
          absurd ((register-IsAdmitted bootstrap_token none env req t h).loaded refl)
      granted (some (doc, commit)) resp h =
          let admitted = register-IsAdmitted bootstrap_token (some (doc, commit)) env req t h in
          let endpoint =
            advertised (resolve_role doc req.name).0 (resolve_role doc req.name).1 req.endpoint in
          let enrols = register-enrol bootstrap_token doc commit env req t admitted in
          let (id, e, f, table, stored) = enrol-ok env req endpoint t (rw enrols at h) in
          rw (enrols, table)
            (upsert_agent-IsRegistry env.fault env.now.unix
              (enrolled hash_token env req endpoint id resp.auth_token) t v)
