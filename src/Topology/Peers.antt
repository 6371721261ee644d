-- ===== src/Topology/Peers.antt =====
-- internal/topology/topology.go: which peers `PeersFor` derives for a hub.
use seine.Prelude.{
  String, ◌≡◌, ◌⊎◌, ◌↔◌, inl, inr, Option, List, [], ◌++◌, arith, In, In-append_left,
  In-append_right, In_of_append,
}
use seine.Prelude.Result.{ok, >>=-eq-ok, or_error}
use seine.External
use seine.External.{Net}
use seine.Api.{role_hub, PeerInfo}
use seine.Spec.Types.{Document, Duration}
use seine.Spec.Lookup.{agents_for_hub}
use seine.Wg.Types.{Peer}
use seine.Topology.{Self, by_name, mesh_peers, anchored_peers, hub_peers, peers_for, overlay_cidr}
use seine.Topology.Spokes.{Serves, anchored_peers_iff}
use seine.Topology.Hubs.{Meshes, mesh_peers_iff}

module _ (net : Net) (keys : External.Keys) (registry : List (String × PeerInfo)) where
  hub_peers_iff :
      (doc : Document) (self : Self net) (keepalive : Duration) (ps : List (Peer net keys))
      (p : Peer net keys)
      → hub_peers net keys doc self registry keepalive ≡ ok ps
      → In p ps ↔ (
          Meshes net keys registry doc self.name keepalive doc.spec.hubs p
          ⊎ Serves net keys registry (agents_for_hub doc self.name) p)
  unfolding hub_peers
  hub_peers_iff doc self keepalive ps p h =
      let (mesh, q, h2) =
        >>=-eq-ok (mesh_peers net keys doc self.name registry keepalive doc.spec.hubs) _ h in
      let (spokes, t, h3) =
        >>=-eq-ok (anchored_peers net keys registry (agents_for_hub doc self.name)) _ h2 in
      let e : mesh ++ spokes ≡ ps = ground arith in
      let left = mesh_peers_iff net keys registry doc self.name keepalive doc.spec.hubs mesh p q in
      let right = anchored_peers_iff net keys registry (agents_for_hub doc self.name) spokes p t in
      rw (← e) (
        λ m. elim (In_of_append p mesh spokes m) [
          | inl k ↦ inl (left.0 k)
          | inr k ↦ inr (right.0 k)
        ],
        λ s. elim s [
          | inl k ↦ In-append_left p mesh spokes (left.1 k)
          | inr k ↦ In-append_right p mesh spokes (right.1 k)
        ],
      )

module _ (net : Net) (keys : External.Keys) where
  -- The peers that a hub derives are exactly those of the other hubs of the document that have
  -- registered, and those of the spokes anchored at it that have registered.
  pub peers_for_hub :
      (doc : Document) (self : Self net) (registry : List (Option PeerInfo)) (keepalive : Duration)
      (ps : List (Peer net keys)) (p : Peer net keys)
      → self.role ≡ role_hub
      → peers_for net keys doc self registry keepalive ≡ ok ps
      → In p ps ↔ (
          Meshes net keys (by_name [] registry) doc self.name keepalive doc.spec.hubs p
          ⊎ Serves net keys (by_name [] registry) (agents_for_hub doc self.name) p)
  unfolding peers_for
  peers_for_hub doc self registry keepalive ps p role h =
      let (overlay, q, h2) =
        >>=-eq-ok (or_error (net.parse_prefix doc.spec.cidr) overlay_cidr) _ h in
      hub_peers_iff net keys (by_name [] registry) doc self keepalive ps p (rw role at h2)
