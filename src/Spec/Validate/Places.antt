-- ===== src/Spec/Validate/Places.antt =====
-- internal/spec/validate.go: what the loops over hubs and agents establish when they report nothing.
use seine.Prelude.{
  ℕ, String, ◌≡◌, refl, ◌∙◌, inl, inr, Bool, true, false, Option, some, List, [], ◌∷◌, ◌++◌, arith,
  In, keys, lookup, lookup-eq-none, string_eq, append-eq-nil, Bool-cases, Option-cases,
}
use seine.External.{Net}
use seine.Spec.Types.{Hub, Agent}
use seine.Spec.Validate.Names.{valid_name}
use seine.Spec.Validate.Problems.{Site, Problem, hub_at, agent_at}
use seine.Spec.Validate.{
  Seen, report, check_hub_name, check_agent_name, check_addr_in_overlay, is_outside, check_hub,
  check_agent, check_endpoint, check_agent_hub, check_agent_groups,
}

pub report-eq-nil : (b : Bool) (p : Problem) → report b p ≡ [] → b ≡ false
report-eq-nil true p h = cc
report-eq-nil false p h = refl

module _ {A : Type 0} where
  -- A name that passed its check was new and is entered.
  pub record EntersName (seen : Seen A) (name : String) (out : Seen A) : Type 0 where
    pub label : valid_name name ≡ true
    pub new : ¬ In name (keys seen.names)
    pub entered : keys out.names ≡ name ∷ keys seen.names
    pub places : out.tunnel_ips ≡ seen.tunnel_ips

  check_hub_name-EntersName :
      (i : ℕ) (seen : Seen A) (name : String)
      → (check_hub_name i seen name).1 ≡ []
      → EntersName seen name (check_hub_name i seen name).0
        × ((check_hub_name i seen name).0.hub_names ≡ name ∷ seen.hub_names)
  unfolding check_hub_name
  check_hub_name-EntersName i seen name h = elim (Bool-cases (valid_name name)) [
    | inr p ↦ absurd (ground arith)
    | inl p ↦ elim (Option-cases (lookup string_eq name seen.names)) [
      | inr (o, q) ↦ absurd (ground arith)
      | inl q ↦
          rw (p, q)
            (
              record {
                label = p;
                new = lookup-eq-none string_eq name seen.names q;
                entered = refl;
                places = refl;
              },
              refl,
            )
    ]
  ]

  check_agent_name-EntersName :
      (i : ℕ) (seen : Seen A) (name : String)
      → (check_agent_name i seen name).1 ≡ []
      → EntersName seen name (check_agent_name i seen name).0
        × ((check_agent_name i seen name).0.hub_names ≡ seen.hub_names)
  unfolding check_agent_name
  check_agent_name-EntersName i seen name h = elim (Bool-cases (valid_name name)) [
    | inr p ↦ absurd (ground arith)
    | inl p ↦ elim (Option-cases (lookup string_eq name seen.names)) [
      | inr (o, q) ↦ absurd (ground arith)
      | inl q ↦
          rw (p, q)
            (
              record {
                label = p;
                new = lookup-eq-none string_eq name seen.names q;
                entered = refl;
                places = refl;
              },
              refl,
            )
    ]
  ]

module _ (net : Net) (overlay : Option net.Prefix) where
  open net use {Addr, addr_eq, parse_addr}

  -- An address that passed its check parsed, lies in the overlay, was new and is entered.
  pub record EntersAddr (seen : Seen Addr) (raw : String) (out : Seen Addr) : Type 0 where
    pub addr : Addr
    pub parsed : parse_addr raw ≡ some addr
    pub inside : is_outside net overlay addr ≡ false
    pub new : ¬ In addr (keys seen.tunnel_ips)
    pub entered : keys out.tunnel_ips ≡ addr ∷ keys seen.tunnel_ips
    pub names : out.names ≡ seen.names
    pub hubs : out.hub_names ≡ seen.hub_names

  check_addr_in_overlay-EntersAddr :
      (path : Site) (raw : String) (seen : Seen Addr)
      → (check_addr_in_overlay net overlay path raw seen).1 ≡ []
      → EntersAddr seen raw (check_addr_in_overlay net overlay path raw seen).0
  unfolding check_addr_in_overlay
  check_addr_in_overlay-EntersAddr path raw seen h = elim (Option-cases (parse_addr raw)) [
    | inl p ↦ absurd (
        let e : (check_addr_in_overlay net overlay path raw seen).1
            ≡ Problem.tunnel_ip_unparsable path raw ∷ [] =
          rw (check_addr_in_overlay, p) refl in
        cc)
    | inr (addr, p) ↦ elim (Option-cases (lookup addr_eq addr seen.tunnel_ips)) [
      | inr (o, q) ↦
          let e : (check_addr_in_overlay net overlay path raw seen).1
              ≡ report (is_outside net overlay addr) (Problem.tunnel_ip_outside path raw)
                ++ Problem.tunnel_ip_used path raw o ∷ [] =
            rw (check_addr_in_overlay, p, q) refl in
          let nothing =
            append-eq-nil
              (report (is_outside net overlay addr) (Problem.tunnel_ip_outside path raw))
              (Problem.tunnel_ip_used path raw o ∷ []) (rw e at h) in
          absurd (let f = nothing.1 in cc)
      | inl q ↦
          let e : check_addr_in_overlay net overlay path raw seen ≡ (
            record seen { tunnel_ips = (addr, raw) ∷ seen.tunnel_ips },
            report (is_outside net overlay addr) (Problem.tunnel_ip_outside path raw),
          ) =
            rw (check_addr_in_overlay, p, q) refl in
          rw e (record {
            addr = addr;
            parsed = p;
            inside =
                report-eq-nil (is_outside net overlay addr) (Problem.tunnel_ip_outside path raw)
                  (rw e at h);
            new = lookup-eq-none addr_eq addr seen.tunnel_ips q;
            entered = refl;
            names = refl;
            hubs = refl;
          })
    ]
  ]

  -- A hub or an agent that passed its checks: its name and its address are entered.
  pub record Enters (seen : Seen Addr) (name raw : String) (out : Seen Addr) : Type 0 where
    pub label : valid_name name ≡ true
    pub new_name : ¬ In name (keys seen.names)
    pub names : keys out.names ≡ name ∷ keys seen.names
    pub addr : Addr
    pub parsed : parse_addr raw ≡ some addr
    pub inside : is_outside net overlay addr ≡ false
    pub new_addr : ¬ In addr (keys seen.tunnel_ips)
    pub addrs : keys out.tunnel_ips ≡ addr ∷ keys seen.tunnel_ips

  both :
      (seen mid out : Seen Addr) (name raw : String)
      → EntersName seen name mid
      → EntersAddr mid raw out
      → Enters seen name raw out
  both seen mid out name raw n a = record {
    label = n.label;
    new_name = n.new;
    names = rw (a.names) n.entered;
    addr = a.addr;
    parsed = a.parsed;
    inside = a.inside;
    new_addr = rw (← n.places) a.new;
    addrs = rw (← n.places) a.entered;
  }

  pub check_hub-Enters :
      (i : ℕ) (seen : Seen Addr) (h : Hub)
      → (check_hub net overlay i seen h).1 ≡ []
      → Enters seen h.name h.tunnel_ip (check_hub net overlay i seen h).0
        × ((check_hub net overlay i seen h).0.hub_names ≡ h.name ∷ seen.hub_names)
        × (check_endpoint net i h.endpoint ≡ [])
  unfolding check_hub
  check_hub-Enters i seen h none_reported =
      let named = check_hub_name i seen h.name in
      let addressed = check_addr_in_overlay net overlay (hub_at i) h.tunnel_ip named.0 in
      let (a, b) =
        append-eq-nil named.1 (check_endpoint net i h.endpoint ++ addressed.1) none_reported in
      let (c, d) = append-eq-nil (check_endpoint net i h.endpoint) addressed.1 b in
      let (n, hubs) = check_hub_name-EntersName i seen h.name a in
      let at = check_addr_in_overlay-EntersAddr (hub_at i) h.tunnel_ip named.0 d in
      (both seen named.0 addressed.0 h.name h.tunnel_ip n at, at.hubs ∙ hubs, c)

  pub check_agent-Enters :
      (groups : List String) (i : ℕ) (seen : Seen Addr) (a : Agent)
      → (check_agent net overlay groups i seen a).1 ≡ []
      → Enters seen a.name a.tunnel_ip (check_agent net overlay groups i seen a).0
        × ((check_agent net overlay groups i seen a).0.hub_names ≡ seen.hub_names)
        × (check_agent_hub i seen.hub_names a.hub ≡ [])
        × (check_agent_groups i 0 groups [] a.groups ≡ [])
  unfolding check_agent
  check_agent-Enters groups i seen a none_reported =
      let named = check_agent_name i seen a.name in
      let addressed = check_addr_in_overlay net overlay (agent_at i) a.tunnel_ip named.0 in
      let hub = check_agent_hub i seen.hub_names a.hub in
      let joined = check_agent_groups i 0 groups [] a.groups in
      let (p, q) = append-eq-nil named.1 (addressed.1 ++ (hub ++ joined)) none_reported in
      let (r, s) = append-eq-nil addressed.1 (hub ++ joined) q in
      let (t, u) = append-eq-nil hub joined s in
      let (n, hubs) = check_agent_name-EntersName i seen a.name p in
      let at = check_addr_in_overlay-EntersAddr (agent_at i) a.tunnel_ip named.0 r in
      (both seen named.0 addressed.0 a.name a.tunnel_ip n at, at.hubs ∙ hubs, t, u)
