-- ===== src/Topology/Spokes.antt =====
-- internal/topology/topology.go: the peers that a hub derives for its spokes.
use seine.Prelude.{
  String, ◌≡◌, refl, ◌⊎◌, ◌↔◌, inl, inr, some, List, [], ◌∷◌, arith, Option-cases, In, lookup,
  string_eq,
}
use seine.Prelude.Result.{ok, >>=-eq-ok}
use seine.External
use seine.External.{Net}
use seine.Api.{PeerInfo}
use seine.Spec.Types.{Agent}
use seine.Wg.Types.{Peer}
use seine.Topology.{anchored_peer, anchored_peers}

module _ (net : Net) (keys : External.Keys) (registry : List (String × PeerInfo)) where
  -- A spoke of the list that has registered, with its peer.
  pub record Serves (agents : List Agent) (p : Peer net keys) : Type 0 where
    pub agent : Agent
    pub listed : In agent agents
    pub info : PeerInfo
    pub registered : lookup string_eq agent.name registry ≡ some info
    pub peer : anchored_peer net keys info agent ≡ ok p

  spoke_of_rest :
      (a : Agent) (rest : List Agent) (p : Peer net keys) → Serves rest p → Serves (a ∷ rest) p
  spoke_of_rest a rest p s = record {
    agent = s.agent;
    listed = inr s.listed;
    info = s.info;
    registered = s.registered;
    peer = s.peer;
  }

  first_spoke :
      (a : Agent) (rest : List Agent) (info : PeerInfo) (x p : Peer net keys)
      → lookup string_eq a.name registry ≡ some info
      → anchored_peer net keys info a ≡ ok x
      → p ≡ x
      → Serves (a ∷ rest) p
  first_spoke a rest info x p r q e = record {
    agent = a;
    listed = inl refl;
    info = info;
    registered = r;
    peer = rw e q;
  }

  -- A spoke of the list is its first, or one of the others.
  spoke_cases :
      (a : Agent) (rest : List Agent) (p : Peer net keys)
      → Serves (a ∷ rest) p
      → ((info : PeerInfo) × (lookup string_eq a.name registry ≡ some info)
          × (anchored_peer net keys info a ≡ ok p))
        ⊎ Serves rest p
  spoke_cases a rest p s = elim s.listed [
    | inl e ↦ inl (s.info, rw (← e) s.registered, rw (← e) s.peer)
    | inr m ↦ inr (record {
      agent = s.agent;
      listed = m;
      info = s.info;
      registered = s.registered;
      peer = s.peer;
    })
  ]

  -- The loop over a hub's spokes derives the peers of those that have registered.
  pub anchored_peers_iff :
      (agents : List Agent) (ps : List (Peer net keys)) (p : Peer net keys)
      → anchored_peers net keys registry agents ≡ ok ps
      → In p ps ↔ Serves agents p
  unfolding anchored_peers
  anchored_peers_iff [] ps p h =
      let e : [] ≡ ps = ground arith in (λ m. absurd (rw (← e) at m), λ s. absurd s.listed)
  anchored_peers_iff (a ∷ rest) ps p h = elim (Option-cases (lookup string_eq a.name registry)) [
    | inl r ↦
        let ih = anchored_peers_iff rest ps p (rw (anchored_peers, r) at h) in
        (
          λ m. spoke_of_rest a rest p (ih.0 m),
          λ s. elim (spoke_cases a rest p s) [ inl (info, r', q) ↦ absurd (cc) | inr t ↦ ih.1 t ],
        )
    | inr (info, r) ↦
        let (x, q, h2) =
          >>=-eq-ok (anchored_peer net keys info a) _ (rw (anchored_peers, r) at h) in
        let (ys, t, h3) = >>=-eq-ok (anchored_peers net keys registry rest) _ h2 in
        let e : x ∷ ys ≡ ps = ground arith in
        let ih = anchored_peers_iff rest ys p t in
        rw (← e) (
          λ m. elim m [
            | inl s ↦ first_spoke a rest info x p r q s
            | inr k ↦ spoke_of_rest a rest p (ih.0 k)
          ],
          λ s. elim (spoke_cases a rest p s) [
            | inl (info', r', q') ↦
                let i : info' ≡ info = ground arith in
                let q2 : anchored_peer net keys info a ≡ ok p = rw i at q' in inl (ground arith)
            | inr k ↦ inr (ih.1 k)
          ],
        )
  ]
