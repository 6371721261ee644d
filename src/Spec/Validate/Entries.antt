-- ===== src/Spec/Validate/Entries.antt =====
-- internal/spec/validate.go: what the loops over hubs and agents establish together.
use seine.Prelude.{
  ℕ, ◌+◌, String, ◌≡◌, refl, ◌⊎◌, inl, inr, true, false, Option, some, List, [], ◌∷◌, ◌++◌, map, In,
  Distinct, All, keys, append-eq-nil,
}
use seine.External.{Net}
use seine.Spec.Types.{Hub, Agent}
use seine.Spec.Validate.Names.{valid_name}
use seine.Spec.Validate.{Seen, check_hub, check_hubs, check_agent, check_agents, unseen, is_outside}
use seine.Spec.Validate.Places.{Enters, check_hub-Enters, check_agent-Enters}
use seine.Spec.Validate.Groups.{
  check_agent_groups-declared, check_agent_hub-declared, All_imp, All_at,
}

-- The name and the tunnel address of a hub or an agent.
abbrev pub Entry : Type 0
Entry = String × String

abbrev pub entry_names : List Entry → List String
entry_names [] = []
entry_names ((n, r) ∷ es) = n ∷ entry_names es

abbrev pub hub_entries : List Hub → List Entry
hub_entries [] = []
hub_entries (h ∷ hs) = (h.name, h.tunnel_ip) ∷ hub_entries hs

abbrev pub hub_names : List Hub → List String
hub_names [] = []
hub_names (h ∷ hs) = h.name ∷ hub_names hs

abbrev pub agent_entries : List Agent → List Entry
agent_entries [] = []
agent_entries (a ∷ rest) = (a.name, a.tunnel_ip) ∷ agent_entries rest

-- An agent anchored at a declared hub, in declared groups, each listed once.
pub record IsAnchored (hubs groups : List String) (a : Agent) : Type 0 where
  pub hub : In a.hub hubs
  pub declared : All (λ g. In g groups) a.groups
  pub once : Distinct a.groups

split_cons : (n x : String) (l : List String) → In n (x ∷ l) → (n ≡ x) ⊎ In n l
split_cons n x l h = h

module _ (net : Net) (overlay : Option net.Prefix) where
  open net use {Addr, parse_addr}

  -- The entries are entered one after the other.
  abbrev pub EntersAll : Seen Addr → List Entry → Seen Addr → Type 0
  EntersAll seen [] out = seen ≡ out
  EntersAll seen ((n, r) ∷ es) out =
      (mid : Seen Addr) × Enters net overlay seen n r mid × EntersAll mid es out

  EntersAll-append :
      (seen mid out : Seen Addr) (xs ys : List Entry)
      → EntersAll seen xs mid
      → EntersAll mid ys out
      → EntersAll seen (xs ++ ys) out
  EntersAll-append seen mid out [] ys h k = rw h k
  EntersAll-append seen mid out ((n, r) ∷ xs) ys (next, e, h) k =
      (next, e, EntersAll-append next mid out xs ys h k)

  pub names_are_new :
      (seen out : Seen Addr) (es : List Entry)
      → EntersAll seen es out
      → All (λ n. valid_name n ≡ true) (entry_names es)
        × All (λ n. ¬ In n (keys seen.names)) (entry_names es)
        × Distinct (entry_names es)
  names_are_new seen out [] h = (tt, tt, tt)
  names_are_new seen out ((n, r) ∷ es) (mid, e, h) =
      let (valids, news, distinct) = names_are_new mid out es h in
      let old = e.names in
      (
        (e.label, valids),
        (e.new_name, All_imp (entry_names es) (λ x m i. m (rw old (inr i))) news),
        (
          (λ m.
              All_at (λ x. ¬ In x (keys mid.names)) (entry_names es) n m news (rw old (inl refl))),
          distinct,
        ),
      )

  -- The addresses of the entries: all parse, lie in the overlay and are distinct.
  pub record ArePlaced (seen : Seen Addr) (es : List Entry) : Type 0 where
    pub addrs : List Addr
    pub parsed : map (λ (e : Entry). parse_addr e.1) es ≡ map some addrs
    pub inside : All (λ a. is_outside net overlay a ≡ false) addrs
    pub fresh : All (λ a. ¬ In a (keys seen.tunnel_ips)) addrs
    pub distinct : Distinct addrs

  pub EntersAll-ArePlaced :
      (seen out : Seen Addr) (es : List Entry) → EntersAll seen es out → ArePlaced seen es
  EntersAll-ArePlaced seen out [] h = record {
    addrs = [];
    parsed = refl;
    inside = tt;
    fresh = tt;
    distinct = tt;
  }
  EntersAll-ArePlaced seen out ((n, r) ∷ es) (mid, e, h) =
      let p = EntersAll-ArePlaced mid out es h in
      let old = e.addrs in
      record {
        addrs = e.addr ∷ p.addrs;
        parsed = rw (e.parsed, p.parsed) refl;
        inside = (e.inside, p.inside);
        fresh = (e.new_addr, All_imp p.addrs (λ x m i. m (rw old (inr i))) p.fresh);
        distinct = (
          (λ m.
              All_at (λ x. ¬ In x (keys mid.tunnel_ips)) p.addrs e.addr m p.fresh
                (rw old (inl refl))),
          p.distinct,
        );
      }

  check_hubs-EntersAll :
      (i : ℕ) (seen : Seen Addr) (hs : List Hub)
      → (check_hubs net overlay i seen hs).1 ≡ []
      → EntersAll seen (hub_entries hs) (check_hubs net overlay i seen hs).0
        × ((n : String)
            → In n (check_hubs net overlay i seen hs).0.hub_names
            → In n seen.hub_names ⊎ In n (hub_names hs))
  unfolding check_hubs
  check_hubs-EntersAll i seen [] h = (refl, λ n m. inl m)
  check_hubs-EntersAll i seen (x ∷ rest) h =
      let step = check_hub net overlay i seen x in
      let (p, q) = append-eq-nil step.1 (check_hubs net overlay (i + 1) step.0 rest).1 h in
      let (e, hubs, ep) = check_hub-Enters net overlay i seen x p in
      let (all, found) = check_hubs-EntersAll (i + 1) step.0 rest q in
      (
        (step.0, e, all),
        λ n m. elim (found n m) [
          | inr k ↦ inr (inr k)
          | inl k ↦ elim (split_cons n x.name seen.hub_names (rw hubs at k)) [
            | inl s ↦ inr (inl s)
            | inr o ↦ inl o
          ]
        ],
      )

  check_agents-EntersAll :
      (groups : List String) (i : ℕ) (seen : Seen Addr) (agents : List Agent)
      → (check_agents net overlay groups i seen agents).1 ≡ []
      → EntersAll seen (agent_entries agents) (check_agents net overlay groups i seen agents).0
        × All (IsAnchored seen.hub_names groups) agents
  unfolding check_agents
  check_agents-EntersAll groups i seen [] h = (refl, tt)
  check_agents-EntersAll groups i seen (a ∷ rest) h =
      let step = check_agent net overlay groups i seen a in
      let (p, q) = append-eq-nil step.1 (check_agents net overlay groups (i + 1) step.0 rest).1 h in
      let (e, hubs, hub, joined) = check_agent-Enters net overlay groups i seen a p in
      let (all, anchored) = check_agents-EntersAll groups (i + 1) step.0 rest q in
      let (declared, _, once) = check_agent_groups-declared i 0 groups [] a.groups joined in
      (
        (step.0, e, all),
        (
          record {
            hub = check_agent_hub-declared i seen.hub_names a.hub hub;
            declared = declared;
            once = once;
          },
          All_imp rest
              (λ x r. record { hub = rw hubs at r.hub; declared = r.declared; once = r.once })
              anchored,
        ),
      )

  pub IsAnchored-imp :
      (groups known hubs declared : List String) (agents : List Agent)
      → ((n : String) → In n known → In n hubs)
      → ((g : String) → In g groups → In g declared)
      → All (IsAnchored known groups) agents
      → All (IsAnchored hubs declared) agents
  IsAnchored-imp groups known hubs declared agents f g h =
      All_imp agents
        (λ a r. record {
          hub = f a.hub r.hub;
          declared = All_imp a.groups g r.declared;
          once = r.once;
        })
        h

  -- The hubs and the agents, entered in one sequence.
  pub nodes :
      (groups : List String) (hs : List Hub) (agents : List Agent)
      → (check_hubs net overlay 0 (unseen net) hs).1 ≡ []
      → (check_agents net overlay groups 0 (check_hubs net overlay 0 (unseen net) hs).0 agents).1
        ≡ []
      → EntersAll
          (unseen net)
          (hub_entries hs ++ agent_entries agents)
          (check_agents net overlay groups 0 (check_hubs net overlay 0 (unseen net) hs).0 agents).0
        × All (IsAnchored (hub_names hs) groups) agents
  nodes groups hs agents p q =
      let mid = (check_hubs net overlay 0 (unseen net) hs).0 in
      let out = (check_agents net overlay groups 0 mid agents).0 in
      let (hubs, found) = check_hubs-EntersAll 0 (unseen net) hs p in
      let (all, anchored) = check_agents-EntersAll groups 0 mid agents q in
      (
        EntersAll-append (unseen net) mid out (hub_entries hs) (agent_entries agents) hubs all,
        IsAnchored-imp groups mid.hub_names (hub_names hs) groups agents
            (λ n m. elim (found n m) [ inl f ↦ absurd f | inr k ↦ k ]) (λ g m. m) anchored,
      )
