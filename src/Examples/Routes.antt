-- ===== src/Examples/Routes.antt =====
-- The prefixes of the sample network's hub, with its two agents registered.
use seine.Prelude.{◌≡◌, ◌≢◌, refl, ap, inl, inr, some, List, [], ◌∷◌, In, Option}
use seine.Prelude.Int.{pos}
use seine.Prelude.Result.{ok}
use seine.Api.{PeerInfo}
use seine.Wg.Types.{Peer}
use seine.Topology.{peers_for}
use seine.Topology.Routed.{PrefixLaws}
use seine.Topology.Disjoint.{peers_for_disjoint}
use seine.Examples.Sample.{host_beq, laptop, server, sample_net, sample_doc}
use seine.Examples.Device.{sample_keys, gateway_self, laptop_info, laptop_peer, peer}
use seine.Examples.Spec.{sample-IsWellFormed}

sample_prefixes : PrefixLaws sample_net
sample_prefixes = record { addr_of_prefix = λ p a h. refl }

abbrev both_infos : List (Option PeerInfo)
both_infos =
    some laptop_info
    ∷ some (record laptop_info { name = "server"; public_key = "10.0.0.3"; tunnel_ip = "10.0.0.3" })
    ∷ []

abbrev server_peer : Peer sample_net sample_keys
server_peer = record (peer server) { name = "server" }

both_peers :
    peers_for sample_net sample_keys sample_doc gateway_self both_infos (pos 0)
    ≡ ok (laptop_peer ∷ server_peer ∷ [])
unfolding peers_for
both_peers = refl

apart : laptop_peer ≢ server_peer
apart = λ e. let q = ap (λ (p : Peer sample_net sample_keys). host_beq p.public_key laptop) e in cc

peers_for_disjoint_example : ¬ In (laptop, 32) server_peer.allowed_ips
peers_for_disjoint_example =
    peers_for_disjoint sample_net sample_keys sample_doc gateway_self both_infos (pos 0)
      (laptop_peer ∷ server_peer ∷ []) laptop_peer server_peer (laptop, 32) sample-IsWellFormed
      sample_prefixes refl both_peers (inl refl) (inr (inl refl)) apart (inl refl)
