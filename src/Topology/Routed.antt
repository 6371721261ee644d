-- ===== src/Topology/Routed.antt =====
-- internal/topology/topology.go: what the allowed prefixes of a hub's peers are made from.
use seine.Prelude.{
  String, ◌≡◌, ◌≢◌, refl, sym, ◌∙◌, ap, ◌⊎◌, inl, inr, true, All, some, List, [], ◌∷◌, ◌++◌, In,
  In-append_left, In-append_right, eq_iff, Option-cases, Bool-cases, ◌==◌, if◌then◌else◌,
}
use seine.Prelude.Result.{Result, ok, err, >>=-eq-ok, wrap, or_error}
use seine.External
use seine.External.{Net}
use seine.Api.{PeerInfo}
use seine.Spec.Types.{Document, Hub, Agent, Duration}
use seine.Spec.Lookup.{agents_for_hub}
use seine.Spec.Validate.Entries.{Entry, hub_entries, agent_entries}
use seine.Spec.Validate.Sound.{IsWellFormed}
use seine.Wg.Types.{Peer}
use seine.Topology.{
  TopologyError, address, single_host_prefix, host_prefixes, hub_mesh_allowed_ips, mesh_peer,
  anchored_peer, resolve_endpoint, public_key, endpoint, no_endpoint,
}
use seine.Topology.Spokes.{Serves}
use seine.Topology.Hubs.{Meshes}
use seine.Topology.Entries.{
  In-hub_entries, In-agent_entries, names_apart, names_of_right, agent_of_name, In_of_anchored,
  entry_of_addr, addr_listed,
}

-- A prefix made of an address holds the address, but for an IPv6 zone. An address that lies in a prefix
-- has no zone.
pub record PrefixLaws (net : Net) : Type 0 where
  pub addr_of_prefix :
      (p : net.Prefix) (a : net.Addr)
      → net.contains p a ≡ true
      → net.prefix_addr (net.prefix_from a (net.bit_len a)) ≡ a

All-In : {A : Type 0} (P : A → Type 0) (a : A) (xs : List A) → All P xs → In a xs → P a
All-In P a [] h m = absurd m
All-In P a (x ∷ xs) h (inl e) = rw e h.0
All-In P a (x ∷ xs) h (inr m) = All-In P a xs h.1 m

module _ (net : Net) where
  open net use {Addr, Prefix, parse_addr, prefix_from, bit_len}

  -- The prefix of a text's address.
  pub record IsHostPrefix (text : String) (x : Prefix) : Type 0 where
    pub addr : Addr
    pub parsed : parse_addr text ≡ some addr
    pub made : x ≡ prefix_from addr (bit_len addr)

  single_host_prefix-IsHostPrefix :
      (text : String) (x : Prefix) → single_host_prefix net text ≡ ok x → IsHostPrefix text x
  unfolding single_host_prefix
  single_host_prefix-IsHostPrefix text x h = elim (Option-cases (parse_addr text)) [
    | inl p ↦ absurd (let y : err (address text) ≡ ok x = rw (single_host_prefix, p) at h in cc)
    | inr (a, p) ↦
        let y : ok (prefix_from a (bit_len a)) ≡ ok x = rw (single_host_prefix, p) at h in
        record { addr = a; parsed = p; made = cc }
  ]

  host_prefixes-IsHostPrefix :
      (agents : List Agent) (xs : List Prefix) (x : Prefix)
      → host_prefixes net agents ≡ ok xs
      → In x xs
      → (a : Agent) × In a agents × IsHostPrefix a.tunnel_ip x
  unfolding host_prefixes
  host_prefixes-IsHostPrefix [] xs x h m = absurd (let e : [] ≡ xs = cc in rw (← e) at m)
  host_prefixes-IsHostPrefix (a ∷ rest) xs x h m =
      let (y, p, h1) = >>=-eq-ok (single_host_prefix net a.tunnel_ip) _ h in
      let (ys, q, h2) = >>=-eq-ok (host_prefixes net rest) _ h1 in
      let e : y ∷ ys ≡ xs = cc in
      let m' : In x (y ∷ ys) = rw (← e) at m in
      elim m' [
        | inl s ↦ (a, inl refl, rw s (single_host_prefix-IsHostPrefix a.tunnel_ip y p))
        | inr k ↦ let (b, l, t) = host_prefixes-IsHostPrefix rest ys x q k in (b, inr l, t)
      ]

  -- The name of the peer of the hub `self` behind which an agent is.
  abbrev pub gate : String → Agent → String
  gate self a = if a.hub == self then a.name else a.hub

  -- A hub or an agent of the document, reached through the peer of that name.
  abbrev pub Reaches : Document → String → String → Entry → Type 0
  Reaches doc self name e =
      ((h : Hub) × In h doc.spec.hubs × (e ≡ (h.name, h.tunnel_ip)) × (name ≡ h.name))
      ⊎ ((a : Agent) × In a doc.spec.agents × (e ≡ (a.name, a.tunnel_ip)) × (name ≡ gate self a))

  pub record IsRouted (doc : Document) (self name : String) (x : Prefix) : Type 0 where
    pub entry : Entry
    pub reaches : Reaches doc self name entry
    pub host : IsHostPrefix entry.1 x

  gate_other : (self hub : String) (a : Agent) → a.hub ≡ hub → hub ≢ self → hub ≡ gate self a
  gate_other self hub a e o = elim (Bool-cases (a.hub == self)) [
    | inl b ↦ absurd (o (sym e ∙ (eq_iff a.hub self).0 b))
    | inr b ↦ rw b (sym e)
  ]

  gate_own : (self : String) (a : Agent) → a.hub ≡ self → a.name ≡ gate self a
  gate_own self a e = rw ((eq_iff a.hub self).1 e) refl

  reached_listed :
      (doc : Document) (self name : String) (e : Entry)
      → Reaches doc self name e
      → In e (hub_entries doc.spec.hubs ++ agent_entries doc.spec.agents)
  reached_listed doc self name e (inl (h, l, q, n)) =
      In-append_left e (hub_entries doc.spec.hubs) (agent_entries doc.spec.agents)
        (rw q (In-hub_entries h doc.spec.hubs l))
  reached_listed doc self name e (inr (a, l, q, n)) =
      In-append_right e (hub_entries doc.spec.hubs) (agent_entries doc.spec.agents)
        (rw q (In-agent_entries a doc.spec.agents l))

  -- The address of a routed prefix can be read off it: it lies in the overlay.
  routed_addr :
      (doc : Document) (self n : String) (x : Prefix)
      → (w : IsWellFormed net doc) → PrefixLaws net
      → (r : IsRouted doc self n x) → net.prefix_addr x ≡ r.host.addr
  routed_addr doc self n x w laws r =
      let es = hub_entries doc.spec.hubs ++ agent_entries doc.spec.agents in
      let listed =
        addr_listed net r.entry r.host.addr es w.addrs w.addrs_parsed
          (reached_listed doc self n r.entry r.reaches) r.host.parsed in
      ap net.prefix_addr r.host.made
      ∙ laws.addr_of_prefix w.overlay r.host.addr
          (All-In (λ a. net.contains w.overlay a ≡ true) r.host.addr w.addrs w.addrs_inside listed)

  -- One prefix is routed through one peer.
  pub IsRouted-same :
      (doc : Document) (self n m : String) (x : Prefix)
      → IsWellFormed net doc
      → PrefixLaws net
      → IsRouted doc self n x
      → IsRouted doc self m x
      → n ≡ m
  IsRouted-same doc self n m x w laws r t =
      let hubs = hub_entries doc.spec.hubs in
      let agents = agent_entries doc.spec.agents in
      let one : r.host.addr ≡ t.host.addr =
        sym (routed_addr doc self n x w laws r) ∙ routed_addr doc self m x w laws t in
      let same : In r.entry (hubs ++ agents) → In t.entry (hubs ++ agents) → r.entry ≡ t.entry =
        λ k l.
          entry_of_addr net r.entry t.entry t.host.addr (hubs ++ agents) w.addrs w.addrs_parsed
            w.addrs_distinct k l (r.host.parsed ∙ ap some one) t.host.parsed in
      elim r.reaches [
        | inl (h, lh, eh, nh) ↦
            let k : In r.entry hubs = rw eh (In-hub_entries h doc.spec.hubs lh) in
            elim t.reaches [
              | inl (g, lg, eg, ng) ↦
                  let l : In t.entry hubs = rw eg (In-hub_entries g doc.spec.hubs lg) in
                  let e =
                    same (In-append_left r.entry hubs agents k)
                      (In-append_left t.entry hubs agents l) in
                  nh ∙ (ap (λ (y : Entry). y.0) (sym eh ∙ (e ∙ eg)) ∙ sym ng)
              | inr (b, lb, eb, nb) ↦
                  let l : In t.entry agents = rw eb (In-agent_entries b doc.spec.agents lb) in
                  let e =
                    same (In-append_left r.entry hubs agents k)
                      (In-append_right t.entry hubs agents l) in
                  absurd (
                    names_apart r.entry t.entry hubs agents w.names k l (ap (λ (y : Entry). y.0) e))
            ]
        | inr (a, la, ea, na) ↦
            let k : In r.entry agents = rw ea (In-agent_entries a doc.spec.agents la) in
            elim t.reaches [
              | inl (g, lg, eg, ng) ↦
                  let l : In t.entry hubs = rw eg (In-hub_entries g doc.spec.hubs lg) in
                  let e =
                    same (In-append_right r.entry hubs agents k)
                      (In-append_left t.entry hubs agents l) in
                  absurd (
                    names_apart t.entry r.entry hubs agents w.names l k
                      (ap (λ (y : Entry). y.0) (sym e)))
              | inr (b, lb, eb, nb) ↦
                  let l : In t.entry agents = rw eb (In-agent_entries b doc.spec.agents lb) in
                  let e =
                    same (In-append_right r.entry hubs agents k)
                      (In-append_right t.entry hubs agents l) in
                  let name : a.name ≡ b.name = ap (λ (y : Entry). y.0) (sym ea ∙ (e ∙ eb)) in
                  let whole =
                    agent_of_name a b doc.spec.agents (names_of_right hubs agents w.names) la lb
                      name in
                  na ∙ (ap (gate self) whole ∙ sym nb)
            ]
      ]

module _ (net : Net) (keys : External.Keys) where
  open net use {Prefix}

  abbrev allowed_of : Result TopologyError (Peer net keys) → List Prefix
  allowed_of (ok p) = p.allowed_ips
  allowed_of (err e) = []

  abbrev pub name_of : Result TopologyError (Peer net keys) → String
  name_of (ok p) = p.name
  name_of (err e) = ""

  pub Meshes-IsRouted :
      (registry : List (String × PeerInfo)) (doc : Document) (self : String) (keepalive : Duration)
      (p : Peer net keys) (x : Prefix)
      → Meshes net keys registry doc self keepalive doc.spec.hubs p
      → In x p.allowed_ips
      → IsRouted net doc self p.name x
  unfolding mesh_peer hub_mesh_allowed_ips agents_for_hub
  Meshes-IsRouted registry doc self keepalive p x s m =
      let h = s.hub in
      let (k, pk, h1) =
        >>=-eq-ok (or_error (keys.parse_key s.info.public_key) (public_key h.name)) _ s.peer in
      let (r, pr, h2) =
        >>=-eq-ok (wrap (endpoint h.name) (resolve_endpoint net s.info.endpoint)) _ h1 in
      let (d, pd, h3) = >>=-eq-ok (or_error r (no_endpoint h.name)) _ h2 in
      let (allowed, pa, h4) = >>=-eq-ok (hub_mesh_allowed_ips net doc h) _ h3 in
      let same : allowed ≡ p.allowed_ips = ap allowed_of h4 in
      let named : h.name ≡ p.name = ap name_of h4 in
      let (own, po, a1) = >>=-eq-ok (single_host_prefix net h.tunnel_ip) _ pa in
      let (rest, ps, a2) = >>=-eq-ok (host_prefixes net (agents_for_hub doc h.name)) _ a1 in
      let list : own ∷ rest ≡ allowed = cc in
      let m' : In x (own ∷ rest) = rw (← (list ∙ same)) at m in
      elim m' [
        | inl e ↦ record {
          entry = (h.name, h.tunnel_ip);
          reaches = inl (h, s.listed, refl, sym named);
          host = rw e (single_host_prefix-IsHostPrefix net h.tunnel_ip own po);
        }
        | inr l ↦
            let (a, la, ha) =
              host_prefixes-IsHostPrefix net (agents_for_hub doc h.name) rest x ps l in
            let (listed, behind) = In_of_anchored a h.name doc.spec.agents la in
            record {
              entry = (a.name, a.tunnel_ip);
              reaches =
                  inr (a, listed, refl, sym named ∙ gate_other net self h.name a behind s.other);
              host = ha;
            }
      ]

  pub Serves-IsRouted :
      (registry : List (String × PeerInfo)) (doc : Document) (self : String) (p : Peer net keys)
      (x : Prefix)
      → Serves net keys registry (agents_for_hub doc self) p
      → In x p.allowed_ips
      → IsRouted net doc self p.name x
  unfolding anchored_peer agents_for_hub
  Serves-IsRouted registry doc self p x s m =
      let a = s.agent in
      let (k, pk, h1) =
        >>=-eq-ok (or_error (keys.parse_key s.info.public_key) (public_key a.name)) _ s.peer in
      let (y, py, h2) = >>=-eq-ok (single_host_prefix net a.tunnel_ip) _ h1 in
      let same : y ∷ [] ≡ p.allowed_ips = ap allowed_of h2 in
      let named : a.name ≡ p.name = ap name_of h2 in
      let (listed, own) = In_of_anchored a self doc.spec.agents s.listed in
      let m' : In x (y ∷ []) = rw (← same) at m in
      elim m' [
        | inl e ↦ record {
          entry = (a.name, a.tunnel_ip);
          reaches = inr (a, listed, refl, sym named ∙ gate_own net self a own);
          host = rw e (single_host_prefix-IsHostPrefix net a.tunnel_ip y py);
        }
        | inr l ↦ absurd l
      ]
