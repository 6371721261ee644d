-- ===== src/NetPolicy/Groups.antt =====
-- internal/netpolicy/netpolicy.go: the members that `Compile` finds for a group.
use seine.Prelude.{
  String, ◌≡◌, refl, ◌⊎◌, ◌↔◌, inl, inr, false, some, List, [], ◌∷◌, ◌++◌, ◌==◌, arith, eq_iff,
  Bool-cases, In, In-append_left, In-append_right, In_of_append,
}
use seine.Prelude.Result.{ok, >>=-eq-ok, or_error, or_error-eq-ok}
use seine.External.{Net}
use seine.Spec.Types.{Agent}
use seine.NetPolicy.Compile.{agent_tunnel_ip, Members, members, join_groups, group_members}

module _ (net : Net) where
  open net use {Addr, parse_addr}

  -- An agent of the list that has the address and is in the group.
  pub record Belongs (ip : Addr) (g : String) (agents : List Agent) : Type 0 where
    pub agent : Agent
    pub listed : In agent agents
    pub address : parse_addr agent.tunnel_ip ≡ some ip
    pub in_group : In g agent.groups

  later :
      (ip : Addr) (g : String) (a : Agent) (rest : List Agent)
      → Belongs ip g rest
      → Belongs ip g (a ∷ rest)
  later ip g a rest h = record {
    agent = h.agent;
    listed = inr h.listed;
    address = h.address;
    in_group = h.in_group;
  }

  first_agent :
      (a : Agent) (rest : List Agent) (ip y : Addr) (g : String)
      → parse_addr a.tunnel_ip ≡ some ip
      → y ≡ ip
      → In g a.groups
      → Belongs y g (a ∷ rest)
  first_agent a rest ip y g p e i = record {
    agent = a;
    listed = inl refl;
    address = rw e p;
    in_group = i;
  }

  earlier :
      (ip : Addr) (g : String) (a : Agent) (rest : List Agent)
      → Belongs ip g (a ∷ rest)
      → (parse_addr a.tunnel_ip ≡ some ip) × In g a.groups ⊎ Belongs ip g rest
  earlier ip g a rest h = elim h.listed [
    | inl e ↦ inl (rw (← e) h.address, rw (← e) h.in_group)
    | inr i ↦
        inr (record { agent = h.agent; listed = i; address = h.address; in_group = h.in_group })
  ]

  members-hit :
      (m : Members net) (g : String) (ips : List Addr) → members net ((g, ips) ∷ m) g ≡ ips
  members-hit m g ips = ground (arith, eq_iff g g)

  members-miss :
      (m : Members net) (g h : String) (ips : List Addr)
      → (h == g) ≡ false
      → members net ((h, ips) ∷ m) g ≡ members net m g
  members-miss m g h ips p = ground arith

  members-cons :
      (m : Members net) (ip y : Addr) (g h : String)
      → In y (members net ((h, members net m h ++ ip ∷ []) ∷ m) g)
        ↔ (In y (members net m g) ⊎ (y ≡ ip) × (g ≡ h))
  members-cons m ip y g h = elim (Bool-cases (h == g)) [
    | inl p ↦
        let same : h ≡ g = (eq_iff h g).0 p in
        rw same (
          rw (members-hit m g (members net m g ++ ip ∷ [])) (
            λ q. elim (In_of_append y (members net m g) (ip ∷ []) q) [
              | inl r ↦ inl r
              | inr r ↦ elim r [ inl e ↦ inr (e, refl) | inr f ↦ absurd f ]
            ],
            λ q. elim q [
              | inl r ↦ In-append_left y (members net m g) (ip ∷ []) r
              | inr e ↦ In-append_right y (members net m g) (ip ∷ []) (inl (e.0))
            ],
          ))
    | inr p ↦
        rw (members-miss m g h (members net m h ++ ip ∷ []) p)
          (inl, λ q. elim q [ inl r ↦ r | inr e ↦ ground (arith, eq_iff h g) ])
  ]

  join_groups-adds :
      (ip : Addr) (m : Members net) (gs : List String) (y : Addr) (g : String)
      → In y (members net (join_groups net ip m gs) g)
        ↔ (In y (members net m g) ⊎ (y ≡ ip) × In g gs)
  unfolding join_groups
  join_groups-adds ip m [] y g = (inl, λ h. elim h [ inl q ↦ q | inr e ↦ absurd (e.1) ])
  join_groups-adds ip m (h ∷ rest) y g =
      let ih = join_groups-adds ip ((h, members net m h ++ ip ∷ []) ∷ m) rest y g in
      let one = members-cons m ip y g h in
      (
        λ q. elim (ih.0 q) [
          | inl r ↦ elim (one.0 r) [ inl t ↦ inl t | inr e ↦ inr (e.0, inl (e.1)) ]
          | inr e ↦ inr (e.0, inr (e.1))
        ],
        λ q. elim q [
          | inl r ↦ ih.1 (inl (one.1 (inl r)))
          | inr e ↦ elim (e.1) [
            | inl t ↦ ih.1 (inl (one.1 (inr (e.0, t))))
            | inr t ↦ ih.1 (inr (e.0, t))
          ]
        ],
      )

  group_members-adds :
      (m : Members net) (agents : List Agent) (m' : Members net) (y : Addr) (g : String)
      → group_members net m agents ≡ ok m'
      → In y (members net m' g) ↔ (In y (members net m g) ⊎ Belongs y g agents)
  unfolding group_members
  group_members-adds m [] m' y g h =
      let e : m ≡ m' = ground arith in
      (λ q. inl (rw e q), λ q. elim q [ inl r ↦ rw (← e) r | inr b ↦ absurd b.listed ])
  group_members-adds m (a ∷ rest) m' y g h =
      let (ip, p, q) =
        >>=-eq-ok (or_error (parse_addr a.tunnel_ip) (agent_tunnel_ip a.name))
          (λ x. group_members net (join_groups net x m a.groups) rest) h in
      let parsed = or_error-eq-ok (parse_addr a.tunnel_ip) (agent_tunnel_ip a.name) p in
      let ih = group_members-adds (join_groups net ip m a.groups) rest m' y g q in
      let one = join_groups-adds ip m a.groups y g in
      (
        λ k. elim (ih.0 k) [
          | inl r ↦ elim (one.0 r) [
            | inl t ↦ inl t
            | inr e ↦ inr (first_agent a rest ip y g parsed (e.0) (e.1))
          ]
          | inr b ↦ inr (later y g a rest b)
        ],
        λ k. elim k [
          | inl r ↦ ih.1 (inl (one.1 (inl r)))
          | inr b ↦ elim (earlier y g a rest b) [
            | inl e ↦ ih.1 (inl (one.1 (inr (ground arith, e.1))))
            | inr c ↦ ih.1 (inr c)
          ]
        ],
      )

  -- Where every address of an agent parses, an address is a member of a group exactly if an agent
  -- of the document that is in the group has it.
  pub group_members_iff :
      (agents : List Agent) (m : Members net) (ip : Addr) (g : String)
      → group_members net [] agents ≡ ok m
      → In ip (members net m g) ↔ Belongs ip g agents
  group_members_iff agents m ip g h =
      let both = group_members-adds [] agents m ip g h in
      (λ q. elim (both.0 q) [ inl f ↦ absurd f | inr b ↦ b ], λ b. both.1 (inr b))
