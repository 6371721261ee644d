-- ===== src/Topology/Disjoint.antt =====
-- internal/topology/topology.go: no prefix is allowed for two of a hub's peers.
use seine.Prelude.{
  String, ◌≡◌, ◌≢◌, sym, ◌∙◌, ap, inl, inr, ◌⊎◌, Option, none, some, List, [], In, lookup,
  string_eq,
}
use seine.Prelude.Result.{Result, ok, err, >>=-eq-ok, wrap, or_error}
use seine.External
use seine.External.{Net}
use seine.Api.{role_hub, PeerInfo}
use seine.Spec.Types.{Document, Duration}
use seine.Spec.Lookup.{agents_for_hub}
use seine.Spec.Validate.Entries.{hub_entries, agent_entries}
use seine.Spec.Validate.Sound.{IsWellFormed}
use seine.Wg.Types.{Peer}
use seine.Topology.{
  Self, TopologyError, by_name, single_host_prefix, hub_mesh_allowed_ips, mesh_peer, anchored_peer,
  peers_for, resolve_endpoint, public_key, endpoint, no_endpoint,
}
use seine.Topology.Spokes.{Serves}
use seine.Topology.Hubs.{Meshes}
use seine.Topology.Peers.{peers_for_hub}
use seine.Topology.Entries.{
  In-hub_entries, In-agent_entries, hub_of_name, agent_of_name, names_apart, names_of_right,
  In_of_anchored,
}
use seine.Topology.Routed.{
  PrefixLaws, IsRouted, IsRouted-same, Meshes-IsRouted, Serves-IsRouted, name_of,
}

abbrev info_of : PeerInfo → Option PeerInfo → PeerInfo
info_of d none = d
info_of d (some x) = x

module _ (net : Net) (keys : External.Keys) (registry : List (String × PeerInfo)) (doc : Document)
    (self : String) (keepalive : Duration) where
  open net use {Prefix}

  -- The peer of one of the other hubs, or of a spoke.
  abbrev Derived : Peer net keys → Type 0
  Derived p =
      Meshes net keys registry doc self keepalive doc.spec.hubs p
      ⊎ Serves net keys registry (agents_for_hub doc self) p

  abbrev peer_or : Peer net keys → Result TopologyError (Peer net keys) → Peer net keys
  peer_or d (ok x) = x
  peer_or d (err e) = d

  Meshes-name :
      (p : Peer net keys)
      → (s : Meshes net keys registry doc self keepalive doc.spec.hubs p) → s.hub.name ≡ p.name
  unfolding mesh_peer
  Meshes-name p s =
      let h = s.hub in
      let (k, pk, h1) =
        >>=-eq-ok (or_error (keys.parse_key s.info.public_key) (public_key h.name)) _ s.peer in
      let (r, pr, h2) =
        >>=-eq-ok (wrap (endpoint h.name) (resolve_endpoint net s.info.endpoint)) _ h1 in
      let (d, pd, h3) = >>=-eq-ok (or_error r (no_endpoint h.name)) _ h2 in
      let (allowed, pa, h4) = >>=-eq-ok (hub_mesh_allowed_ips net doc h) _ h3 in
      ap (name_of net keys) h4

  Serves-name :
      (p : Peer net keys)
      → (s : Serves net keys registry (agents_for_hub doc self) p) → s.agent.name ≡ p.name
  unfolding anchored_peer
  Serves-name p s =
      let a = s.agent in
      let (k, pk, h1) =
        >>=-eq-ok (or_error (keys.parse_key s.info.public_key) (public_key a.name)) _ s.peer in
      let (y, py, h2) = >>=-eq-ok (single_host_prefix net a.tunnel_ip) _ h1 in
      ap (name_of net keys) h2

  -- Peers with one name are one peer.
  Derived-of_name :
      (p q : Peer net keys) → IsWellFormed net doc → Derived p → Derived q → p.name ≡ q.name → p ≡ q
  unfolding agents_for_hub
  Derived-of_name p q w (inl s) (inl t) e =
      let name = Meshes-name p s ∙ (e ∙ sym (Meshes-name q t)) in
      let hub : s.hub ≡ t.hub =
        hub_of_name s.hub t.hub doc.spec.hubs (agent_entries doc.spec.agents) w.names s.listed
          t.listed name in
      let info : s.info ≡ t.info =
        ap (info_of s.info)
          (sym s.registered ∙ (ap (λ n. lookup string_eq n registry) name ∙ t.registered)) in
      ap (peer_or p)
        (sym s.peer ∙ ((λ i. mesh_peer net keys doc (info i) keepalive (hub i)) ∙ t.peer))
  Derived-of_name p q w (inr s) (inr t) e =
      let name = Serves-name p s ∙ (e ∙ sym (Serves-name q t)) in
      let (ls, bs) = In_of_anchored s.agent self doc.spec.agents s.listed in
      let (lt, bt) = In_of_anchored t.agent self doc.spec.agents t.listed in
      let agent : s.agent ≡ t.agent =
        agent_of_name s.agent t.agent doc.spec.agents
          (names_of_right (hub_entries doc.spec.hubs) (agent_entries doc.spec.agents) w.names) ls lt
          name in
      let info : s.info ≡ t.info =
        ap (info_of s.info)
          (sym s.registered ∙ (ap (λ n. lookup string_eq n registry) name ∙ t.registered)) in
      ap (peer_or p) (sym s.peer ∙ ((λ i. anchored_peer net keys (info i) (agent i)) ∙ t.peer))
  Derived-of_name p q w (inl s) (inr t) e =
      let name = Meshes-name p s ∙ (e ∙ sym (Serves-name q t)) in
      let (lt, bt) = In_of_anchored t.agent self doc.spec.agents t.listed in
      absurd (
        names_apart (s.hub.name, s.hub.tunnel_ip) (t.agent.name, t.agent.tunnel_ip)
          (hub_entries doc.spec.hubs) (agent_entries doc.spec.agents) w.names
          (In-hub_entries s.hub doc.spec.hubs s.listed)
          (In-agent_entries t.agent doc.spec.agents lt) name)
  Derived-of_name p q w (inr s) (inl t) e =
      let name = Meshes-name q t ∙ sym (Serves-name p s ∙ e) in
      let (ls, bs) = In_of_anchored s.agent self doc.spec.agents s.listed in
      absurd (
        names_apart (t.hub.name, t.hub.tunnel_ip) (s.agent.name, s.agent.tunnel_ip)
          (hub_entries doc.spec.hubs) (agent_entries doc.spec.agents) w.names
          (In-hub_entries t.hub doc.spec.hubs t.listed)
          (In-agent_entries s.agent doc.spec.agents ls) name)

  Derived-IsRouted :
      (p : Peer net keys) (x : Prefix)
      → Derived p
      → In x p.allowed_ips
      → IsRouted net doc self p.name x
  Derived-IsRouted p x (inl s) k = Meshes-IsRouted net keys registry doc self keepalive p x s k
  Derived-IsRouted p x (inr s) k = Serves-IsRouted net keys registry doc self p x s k

module _ (net : Net) (keys : External.Keys) where
  open net use {Prefix}

  -- On a well-formed document no prefix is allowed for two different ones of the peers that a hub
  -- derives, so that every packet has one peer to go to and to come from, if a prefix that is made of an
  -- address without a zone holds that address.
  pub peers_for_disjoint :
      (doc : Document) (self : Self net) (registry : List (Option PeerInfo)) (keepalive : Duration)
      (ps : List (Peer net keys)) (p q : Peer net keys) (x : Prefix)
      → IsWellFormed net doc
      → PrefixLaws net
      → self.role ≡ role_hub
      → peers_for net keys doc self registry keepalive ≡ ok ps
      → In p ps
      → In q ps
      → p ≢ q
      → In x p.allowed_ips
      → ¬ In x q.allowed_ips
  peers_for_disjoint doc self registry keepalive ps p q x w laws role h mp mq apart xp = λ xq.
      let known = by_name [] registry in
      let dp = (peers_for_hub net keys doc self registry keepalive ps p role h).0 mp in
      let dq = (peers_for_hub net keys doc self registry keepalive ps q role h).0 mq in
      let rp = Derived-IsRouted net keys known doc self.name keepalive p x dp xp in
      let rq = Derived-IsRouted net keys known doc self.name keepalive q x dq xq in
      apart (
        Derived-of_name net keys known doc self.name keepalive p q w dp dq
          (IsRouted-same net doc self.name p.name q.name x w laws rp rq))
