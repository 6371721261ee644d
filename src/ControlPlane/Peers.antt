-- ===== src/ControlPlane/Peers.antt =====
-- internal/controlplane/server.go: the registry that a heartbeat returns.
use seine.Prelude.{
  String, ◌≡◌, ◌≢◌, refl, ◌⊎◌, ◌↔◌, inl, inr, Bool, true, false, Option, some, List, [], ◌∷◌, map,
  arith, In, sym, ◌∙◌, ◌==◌, eq_iff, Bool-cases, if◌then◌else◌,
}
use seine.Prelude.Result.{ok}
use seine.Api.{
  Role, role_unspecified, role_spoke, role_hub, HeartbeatRequest, HeartbeatResponse, PeerInfo,
}
use seine.Spec.Types.{Document}
use seine.Store
use seine.Prelude.Sort.{sort_slice}
use seine.Store.{Table, list_agents, scan_agent, row_less}
use seine.ControlPlane.Roles.{resolve_role}
use seine.ControlPlane.Declared.{Declares, resolved-Declares, Declares-resolved, ne-eq_false}
use seine.ControlPlane.Server.{peer_info, peer_infos, heartbeat, HeartbeatEnv}

abbrev IsDeclared : Option Document → String → Type 0
IsDeclared doc name = (resolve_role doc name).0 ≢ role_unspecified

-- What the response says of an agent of the table whose name the document declares: its name, key and
-- last time as they are registered, its role and tunnel address as the document declares them, and
-- its registered endpoint, but for the caller the one it has just sent, if any.
pub record Reports (doc : Option Document) (caller : Store.Agent) (req : HeartbeatRequest)
    (all : List Store.Agent) (p : PeerInfo) : Type 0 where
  pub agent : Store.Agent
  pub listed : In agent all
  pub declares : Declares doc agent.name p.role p.tunnel_ip
  pub name : p.name ≡ agent.name
  pub public_key : p.public_key ≡ agent.public_key
  pub last_seen : p.last_seen ≡ agent.last_seen_at
  pub own : agent.id ≡ caller.id → req.endpoint ≢ "" → p.endpoint ≡ req.endpoint
  pub registered : (agent.id ≢ caller.id) ⊎ (req.endpoint ≡ "") → p.endpoint ≡ agent.endpoint

-- An entry of the loop.
record Entered (doc : Option Document) (caller : Store.Agent) (req : HeartbeatRequest)
    (all : List Store.Agent) (p : PeerInfo) : Type 0 where
  agent : Store.Agent
  listed : In agent all
  declared : (resolve_role doc agent.name).0 ≢ role_unspecified
  entry : p ≡ peer_info doc caller req (resolve_role doc agent.name).0 agent

abbrev unspecified? : Role → Bool
unspecified? role_unspecified = true
unspecified? role_spoke = false
unspecified? role_hub = false

specified : (role : Role) → role ≢ role_unspecified → unspecified? role ≡ false
specified role_unspecified h = absurd (h refl)
specified role_spoke h = refl
specified role_hub h = refl

module _ (doc : Option Document) (caller : Store.Agent) (req : HeartbeatRequest) where
  later :
      (a : Store.Agent) (rest : List Store.Agent) (p : PeerInfo)
      → Entered doc caller req rest p
      → Entered doc caller req (a ∷ rest) p
  later a rest p r = record {
    agent = r.agent;
    listed = inr r.listed;
    declared = r.declared;
    entry = r.entry;
  }

  earlier :
      (a : Store.Agent) (rest : List Store.Agent) (p : PeerInfo)
      (r : Entered doc caller req (a ∷ rest) p)
      → In r.agent rest
      → Entered doc caller req rest p
  earlier a rest p r m = record {
    agent = r.agent;
    listed = m;
    declared = r.declared;
    entry = r.entry;
  }

  listed :
      (a : Store.Agent) (rest : List Store.Agent) (p : PeerInfo)
      → In p
          (peer_info doc caller req (resolve_role doc a.name).0 a ∷ peer_infos doc caller req rest)
      → (p ≡ peer_info doc caller req (resolve_role doc a.name).0 a)
        ⊎ In p (peer_infos doc caller req rest)
  listed a rest p h = h

  one :
      (a : Store.Agent) (rest : List Store.Agent)
      → peer_infos doc caller req (a ∷ rest) ≡ (
          if unspecified? (resolve_role doc a.name).0
          then peer_infos doc caller req rest
          else peer_info doc caller req (resolve_role doc a.name).0 a
            ∷ peer_infos doc caller req rest)
  unfolding peer_infos
  one a rest = ground arith

  sound :
      (all : List Store.Agent) (p : PeerInfo)
      → In p (peer_infos doc caller req all)
      → Entered doc caller req all p
  sound [] p h = absurd (unfold peer_infos in h)
  sound (a ∷ rest) p h = elim (Bool-cases (unspecified? (resolve_role doc a.name).0)) [
    | inl u ↦ later a rest p (sound rest p (rw (one a rest, u) at h))
    | inr d ↦ elim (listed a rest p (rw (one a rest, d) at h)) [
      | inl e ↦ record { agent = a; listed = inl refl; declared = λ u. ground arith; entry = e }
      | inr m ↦ later a rest p (sound rest p m)
    ]
  ]

  complete :
      (all : List Store.Agent) (p : PeerInfo)
      → Entered doc caller req all p
      → In p (peer_infos doc caller req all)
  complete [] p r = absurd r.listed
  complete (a ∷ rest) p r = rw (one a rest) (elim r.listed [
    | inl e ↦
        let d : (resolve_role doc a.name).0 ≢ role_unspecified = rw e at r.declared in
        let entry : p ≡ peer_info doc caller req (resolve_role doc a.name).0 a = rw e at r.entry in
        rw (specified (resolve_role doc a.name).0 d) (inl entry)
    | inr m ↦ elim (Bool-cases (unspecified? (resolve_role doc a.name).0)) [
      | inl u ↦ rw u (complete rest p (earlier a rest p r m))
      | inr d ↦ rw d (inr (complete rest p (earlier a rest p r m)))
    ]
  ])

module _ (doc : Option Document) (caller : Store.Agent) (req : HeartbeatRequest) where
  peer_info_own :
      (role : Role) (a : Store.Agent)
      → a.id ≡ caller.id
      → req.endpoint ≢ ""
      → (peer_info doc caller req role a).endpoint ≡ req.endpoint
  unfolding peer_info
  peer_info_own role a e n =
      rw (peer_info, (eq_iff a.id caller.id).1 e, ne-eq_false req.endpoint "" n) refl

  peer_info_registered :
      (role : Role) (a : Store.Agent)
      → (a.id ≢ caller.id) ⊎ (req.endpoint ≡ "")
      → (peer_info doc caller req role a).endpoint ≡ a.endpoint
  unfolding peer_info
  peer_info_registered role a (inl n) = rw (peer_info, ne-eq_false a.id caller.id n) refl
  peer_info_registered role a (inr e) = elim (Bool-cases (a.id == caller.id)) [
    | inl b ↦ rw (peer_info, b, (eq_iff req.endpoint "").1 e) refl
    | inr b ↦ rw (peer_info, b) refl
  ]

  Reports-of_Entered :
      (all : List Store.Agent) (p : PeerInfo)
      → Entered doc caller req all p
      → Reports doc caller req all p
  unfolding peer_info
  Reports-of_Entered all p e =
      let role = (resolve_role doc e.agent.name).0 in
      rw (e.entry) (record {
        agent = e.agent;
        listed = e.listed;
        declares = resolved-Declares doc e.agent.name e.declared;
        name = refl;
        public_key = refl;
        last_seen = refl;
        own = peer_info_own role e.agent;
        registered = peer_info_registered role e.agent;
      })

  endpoint_of :
      (role : Role) (all : List Store.Agent) (p : PeerInfo) (r : Reports doc caller req all p)
      → p.endpoint ≡ (peer_info doc caller req role r.agent).endpoint
  endpoint_of role all p r = elim (Bool-cases (r.agent.id == caller.id)) [
    | inr b ↦
        let apart : (r.agent.id ≢ caller.id) ⊎ (req.endpoint ≡ "") =
          inl (λ e. let q = (eq_iff r.agent.id caller.id).1 e in cc) in
        r.registered apart ∙ sym (peer_info_registered role r.agent apart)
    | inl b ↦ elim (Bool-cases (req.endpoint == "")) [
      | inl c ↦
          let same : (r.agent.id ≢ caller.id) ⊎ (req.endpoint ≡ "") =
            inr ((eq_iff req.endpoint "").0 c) in
          r.registered same ∙ sym (peer_info_registered role r.agent same)
      | inr c ↦
          let e = (eq_iff r.agent.id caller.id).0 b in
          let n : req.endpoint ≢ "" = λ e'. let q = (eq_iff req.endpoint "").1 e' in cc in
          r.own e n ∙ sym (peer_info_own role r.agent e n)
    ]
  ]

  Entered-of_Reports :
      (all : List Store.Agent) (p : PeerInfo)
      → Reports doc caller req all p
      → Entered doc caller req all p
  unfolding peer_info
  Entered-of_Reports all p r =
      let (role, ip, declared) = Declares-resolved doc r.agent.name p.role p.tunnel_ip r.declares in
      let endpoint = endpoint_of (resolve_role doc r.agent.name).0 all p r in
      record {
        agent = r.agent;
        listed = r.listed;
        declared = λ u. declared (sym role ∙ u);
        entry = λ i. record {
          name = r.name i;
          public_key = r.public_key i;
          endpoint = endpoint i;
          tunnel_ip = sym ip i;
          last_seen = r.last_seen i;
          role = sym role i;
        };
      }

abbrev roster : Table → List Store.Agent
roster t = map scan_agent (sort_slice row_less t)

answered :
    (doc : Option Document) (commit : String) (env : HeartbeatEnv) (caller : Store.Agent)
    (req : HeartbeatRequest) (t : Table) (resp : HeartbeatResponse)
    → (heartbeat (some (doc, commit)) env (some caller) req t).0 ≡ ok resp
    → (resp.spec_commit ≡ commit)
      × (resp.peers
          ≡ peer_infos doc caller req
              (roster (heartbeat (some (doc, commit)) env (some caller) req t).1))
unfolding heartbeat
answered doc commit env caller req t resp h = ground arith

-- A heartbeat that is answered reports the commit of the spec, and its peers are exactly the entries
-- for the agents of the table, as it stands after the call, whose names the document declares: name,
-- key and last time as registered, the role and the tunnel address of the first hub of that name, or
-- where there is none of the first agent, and the registered endpoint, but for the caller the endpoint
-- that it has just sent, if that is not empty.
pub heartbeat_peers :
    (doc : Option Document) (commit : String) (env : HeartbeatEnv) (caller : Store.Agent)
    (req : HeartbeatRequest) (t : Table) (resp : HeartbeatResponse)
    → (heartbeat (some (doc, commit)) env (some caller) req t).0 ≡ ok resp
    → (all : List Store.Agent) × (list_agents false
          (heartbeat (some (doc, commit)) env (some caller) req t).1
        ≡ ok all)
      × (resp.spec_commit ≡ commit)
      × ((p : PeerInfo) → In p resp.peers ↔ Reports doc caller req all p)
unfolding list_agents
heartbeat_peers doc commit env caller req t resp h =
    let (tip, peers) = answered doc commit env caller req t resp h in
    let all = roster (heartbeat (some (doc, commit)) env (some caller) req t).1 in
    (
      all,
      refl,
      tip,
      λ p. (
        λ m. Reports-of_Entered doc caller req all p (sound doc caller req all p (rw peers at m)),
        λ r. rw peers (complete doc caller req all p (Entered-of_Reports doc caller req all p r)),
      ),
    )
