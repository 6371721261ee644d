-- ===== src/Examples/Peers.antt =====
-- A device that is the list of its peers' keys, and what `ApplyPeers` leaves on it.
use seine.Prelude.{
  ◌≡◌, refl, sym, ◌∙◌, ap, ◌↔◌, Bool, true, not, Option, none, some, List, [], ◌∷◌, map, member, In,
  Bool-cases, inl, inr, if◌then◌else◌,
}
use seine.Prelude.Int.{pos}
use seine.Wg.Types.{Peer}
use seine.Wg.Diff.{Diff}
use seine.Wg.Changes.{peer_key}
use seine.Wg.Iface.{WgPeer, PeerConfig, apply_peers}
use seine.Wg.Applied.{DeviceLaws, wg_key, present, apply_peers-keys}
use seine.Examples.Sample.{Host, laptop, server, host_beq, host_eq, sample_net, sample_doc}
use seine.Examples.Removal.{without, member-without}
use seine.AgentCore.Reconcile.{Host as AgentHost, reconcile_once}
use seine.AgentCore.Converged.{IsConverged, reconcile_once-IsConverged}
use seine.Examples.Install.{sample_tables}
use seine.Examples.Cycle.{cfg, cycle, response}
use seine.Examples.Device.{sample_keys, peer, gateway_self}

abbrev shown : Host → WgPeer sample_net sample_keys
shown k = record { public_key = k; endpoint = none; keepalive = pos 0; allowed_ips = [] }

abbrev applied : PeerConfig sample_net sample_keys → List Host → List Host
applied c s = if c.remove then without host_eq c.public_key s else c.public_key ∷ s

abbrev all_applied : List (PeerConfig sample_net sample_keys) → List Host → List Host
all_applied [] s = s
all_applied (c ∷ cs) s = all_applied cs (applied c s)

abbrev pub key_device : List Host → Option (List (WgPeer sample_net sample_keys))
key_device s = some (map shown s)

abbrev pub key_configure : List (PeerConfig sample_net sample_keys) → List Host → Bool × List Host
key_configure cs s = (true, all_applied cs s)

shown_keys : (s : List Host) → map (wg_key sample_net sample_keys) (map shown s) ≡ s
shown_keys [] = refl
shown_keys (x ∷ xs) = ap (λ t. x ∷ t) (shown_keys xs)

member-applied :
    (k : Host) (c : PeerConfig sample_net sample_keys) (s : List Host)
    → member host_eq k (applied c s)
      ≡ (if host_beq k c.public_key then not c.remove else member host_eq k s)
member-applied k c s = elim (Bool-cases c.remove) [
  | inl r ↦ rw r (member-without host_eq k c.public_key s)
  | inr r ↦
      rw r (elim (Bool-cases (host_beq k c.public_key)) [ inl e ↦ rw e refl | inr e ↦ rw e refl ])
]

member-all_applied :
    (k : Host) (cs : List (PeerConfig sample_net sample_keys)) (s : List Host)
    → member host_eq k (all_applied cs s) ≡ present sample_net sample_keys k cs (member host_eq k s)
member-all_applied k [] s = refl
member-all_applied k (c ∷ cs) s =
    member-all_applied k cs (applied c s)
    ∙ ap (present sample_net sample_keys k cs) (member-applied k c s)

key_laws : DeviceLaws sample_net sample_keys key_device key_configure
key_laws = record {
  keys_after = λ cs s s' ps e d.
      (let end : all_applied cs s ≡ s' = ap (λ r. r.1) e in
        let start : map shown s ≡ ps = cc in
        let keys_of = map (wg_key sample_net sample_keys) in
        (
          map shown s',
          refl,
          λ k.
              ap (member host_eq k) (shown_keys s')
              ∙ (ap (member host_eq k) (sym end)
                  ∙ (member-all_applied k cs s
                      ∙ ap (λ xs. present sample_net sample_keys k cs (member host_eq k xs))
                          (sym (shown_keys s) ∙ ap keys_of start))),
        ));
}

abbrev wanted : List (Peer sample_net sample_keys)
wanted = peer server ∷ []

-- The device has the laptop, which goes, and lacks the server.
abbrev after : List Host
after = (apply_peers sample_net sample_keys key_device key_configure wanted (laptop ∷ [])).2

abbrev planned : Diff sample_net sample_keys
planned = record { added = peer server ∷ []; updated = []; removed = laptop ∷ [] }

applies :
    apply_peers sample_net sample_keys key_device key_configure wanted (laptop ∷ [])
    ≡ (planned, none, after)
unfolding apply_peers
applies = refl

apply_peers-keys_example :
    (ps : List (WgPeer sample_net sample_keys)) × (key_device after ≡ some ps)
    × ((k : Host)
        → In k (map (wg_key sample_net sample_keys) ps)
          ↔ In k (map (peer_key sample_net sample_keys) wanted))
apply_peers-keys_example =
    apply_peers-keys sample_net sample_keys key_device key_configure key_laws wanted (laptop ∷ [])
      after planned applies

-- The sample network's hub, whose device has a peer that goes.
abbrev hub : AgentHost sample_net sample_keys key_device key_configure sample_tables
hub = record {
  identity = record { auth_token = "tok"; token_file = some "tok" };
  wireguard = server ∷ [];
  tables = [];
  firewalled = true;
}

hub_succeeds :
    (reconcile_once sample_net sample_keys key_device key_configure sample_tables cfg gateway_self
      cycle hub).0
    ≡ none
unfolding reconcile_once
hub_succeeds = refl

reconcile_once-IsConverged_example :
    IsConverged sample_net sample_keys key_device key_configure sample_tables key_laws sample_doc
      gateway_self response
      (reconcile_once sample_net sample_keys key_device key_configure sample_tables cfg gateway_self
        cycle hub).1.wireguard
reconcile_once-IsConverged_example =
    reconcile_once-IsConverged sample_net sample_keys key_device key_configure sample_tables
      key_laws cfg gateway_self cycle hub response sample_doc "c0ffee" refl refl hub_succeeds
