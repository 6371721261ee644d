-- ===== src/Topology/Hubs.antt =====
-- internal/topology/topology.go: the peers that a hub derives for the other hubs.
use seine.Prelude.{
  String, ◌≡◌, ◌≢◌, refl, ◌⊎◌, ◌↔◌, inl, inr, some, List, [], ◌∷◌, ◌==◌, arith, eq_iff, Bool-cases,
  Option-cases, In, lookup, string_eq,
}
use seine.Prelude.Result.{ok, >>=-eq-ok}
use seine.External
use seine.External.{Net}
use seine.Api.{PeerInfo}
use seine.Spec.Types.{Document, Hub, Duration}
use seine.Wg.Types.{Peer}
use seine.Topology.{mesh_peer, mesh_peers}

module _ (net : Net) (keys : External.Keys) (registry : List (String × PeerInfo)) where
  -- Another hub of the list that has registered, with its peer.
  pub record Meshes (doc : Document) (self : String) (keepalive : Duration) (hubs : List Hub)
      (p : Peer net keys) : Type 0 where
    pub hub : Hub
    pub listed : In hub hubs
    pub other : hub.name ≢ self
    pub info : PeerInfo
    pub registered : lookup string_eq hub.name registry ≡ some info
    pub peer : mesh_peer net keys doc info keepalive hub ≡ ok p

  module _ (doc : Document) (self : String) (keepalive : Duration) where
    hub_of_rest :
        (h : Hub) (rest : List Hub) (p : Peer net keys)
        → Meshes doc self keepalive rest p
        → Meshes doc self keepalive (h ∷ rest) p
    hub_of_rest h rest p s = record {
      hub = s.hub;
      listed = inr s.listed;
      other = s.other;
      info = s.info;
      registered = s.registered;
      peer = s.peer;
    }

    hub_cases :
        (h : Hub) (rest : List Hub) (p : Peer net keys)
        → Meshes doc self keepalive (h ∷ rest) p
        → ((info : PeerInfo) × (h.name ≢ self)
            × (lookup string_eq h.name registry ≡ some info)
            × (mesh_peer net keys doc info keepalive h ≡ ok p))
          ⊎ Meshes doc self keepalive rest p
    hub_cases h rest p s = elim s.listed [
      | inl e ↦ inl (s.info, (λ k. s.other (rw e k)), rw (← e) s.registered, rw (← e) s.peer)
      | inr m ↦ inr (record {
        hub = s.hub;
        listed = m;
        other = s.other;
        info = s.info;
        registered = s.registered;
        peer = s.peer;
      })
    ]

    -- The loop over the hubs derives the peers of the others that have registered.
    pub mesh_peers_iff :
        (hs : List Hub) (ps : List (Peer net keys)) (p : Peer net keys)
        → mesh_peers net keys doc self registry keepalive hs ≡ ok ps
        → In p ps ↔ Meshes doc self keepalive hs p
    unfolding mesh_peers
    mesh_peers_iff [] ps p h =
        let e : [] ≡ ps = ground arith in (λ m. absurd (rw (← e) at m), λ s. absurd s.listed)
    mesh_peers_iff (x ∷ rest) ps p h = elim (Bool-cases (x.name == self)) [
      | inl b ↦
          let same = (eq_iff x.name self).0 b in
          let ih = mesh_peers_iff rest ps p (rw (mesh_peers, b) at h) in
          (
            λ m. hub_of_rest x rest p (ih.0 m),
            λ s. elim (hub_cases x rest p s) [
              | inl (info, other, r, q) ↦ absurd (other same)
              | inr t ↦ ih.1 t
            ],
          )
      | inr b ↦
          let other : x.name ≢ self = λ e. ground (arith, eq_iff x.name self) in
          elim (Option-cases (lookup string_eq x.name registry)) [
            | inl r ↦
                let ih = mesh_peers_iff rest ps p (rw (mesh_peers, b, r) at h) in
                (
                  λ m. hub_of_rest x rest p (ih.0 m),
                  λ s. elim (hub_cases x rest p s) [
                    | inl (info, o, r', q) ↦ absurd (cc)
                    | inr t ↦ ih.1 t
                  ],
                )
            | inr (info, r) ↦
                let (y, q, h2) =
                  >>=-eq-ok (mesh_peer net keys doc info keepalive x) _
                    (rw (mesh_peers, b, r) at h) in
                let (ys, t, h3) =
                  >>=-eq-ok (mesh_peers net keys doc self registry keepalive rest) _ h2 in
                let e : y ∷ ys ≡ ps = ground arith in
                let ih = mesh_peers_iff rest ys p t in
                rw (← e) (
                  λ m. elim m [
                    | inl s ↦ record {
                      hub = x;
                      listed = inl refl;
                      other = other;
                      info = info;
                      registered = r;
                      peer = rw s q;
                    }
                    | inr k ↦ hub_of_rest x rest p (ih.0 k)
                  ],
                  λ s. elim (hub_cases x rest p s) [
                    | inl (info', o, r', q') ↦
                        let i : info' ≡ info = ground arith in
                        let q2 : mesh_peer net keys doc info keepalive x ≡ ok p = rw i at q' in
                        inl (ground arith)
                    | inr k ↦ inr (ih.1 k)
                  ],
                )
          ]
    ]
