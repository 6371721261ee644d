-- ===== src/Wg/Iface.antt =====
-- internal/wg/iface_linux.go: `ApplyPeers` and the conversions. The wgctrl client is a parameter:
-- how it reads a device and how it configures one.
use seine.Prelude.{
  ℕ, Bool, true, false, Option, none, some, List, [], ◌∷◌, ◌++◌, map, if◌then◌else◌,
}
use seine.Prelude.Int.{pos, ltb_ℤ}
use seine.External
use seine.External.{Net}
use seine.Spec.Types.{Duration}
use seine.Wg.Types.{Peer, UdpAddr}
use seine.Wg.Diff.{Diff, compute_diff, is_empty}

-- `net.IPNet` with a mask made by `net.CIDRMask`: `ones` of `size` bits.
pub record IpNet : Type 0 where
  pub ip : List ℕ
  pub ones : ℕ
  pub size : ℕ

-- `wgtypes.Peer`, the fields that are read.
pub record WgPeer (net : Net) (keys : External.Keys) : Type 0 where
  pub public_key : keys.Key
  pub endpoint : Option (UdpAddr net)
  pub keepalive : Duration
  pub allowed_ips : List IpNet

-- `wgtypes.PeerConfig`; a nil pointer leaves the device's value as it is.
pub record PeerConfig (net : Net) (keys : External.Keys) : Type 0 where
  pub public_key : keys.Key
  pub remove : Bool
  pub endpoint : Option (UdpAddr net)
  pub keepalive : Option Duration
  pub replace_allowed_ips : Bool
  pub allowed_ips : List IpNet

module _ (net : Net) where
  open net use {Prefix, prefix_addr, bits, is_4, as_4, as_16, addr_from_slice, unmap, prefix_from}

  unfoldable pub ip_net_from_prefix : Prefix → IpNet
  ip_net_from_prefix p =
      let addr = prefix_addr p in
      if is_4 addr
      then record { ip = as_4 addr; ones = bits p; size = 32 }
      else record { ip = as_16 addr; ones = bits p; size = 128 }

  unfoldable pub prefix_from_ip_net : IpNet → Option Prefix
  prefix_from_ip_net n = elim (addr_from_slice n.ip) [
    | none ↦ none
    | some addr ↦ some (prefix_from (unmap addr) n.ones)
  ]

  -- the loop that keeps what converts
  unfoldable pub prefixes_from : List IpNet → List Prefix
  unfolding prefix_from_ip_net
  prefixes_from [] = []
  prefixes_from (n ∷ rest) =
      let others = prefixes_from rest in
      elim (prefix_from_ip_net n) [ none ↦ others | some pfx ↦ pfx ∷ others ]

pub data ApplyError : Type 0 where
  read_device configure_peers : ApplyError

module _ (net : Net) (keys : External.Keys) where
  open keys use {Key}

  unfoldable pub peer_to_config : Peer net keys → Bool → PeerConfig net keys
  unfolding ip_net_from_prefix
  peer_to_config p replace_allowed_ips = record {
    public_key = p.public_key;
    remove = false;
    endpoint = p.endpoint;
    keepalive = if ltb_ℤ (pos 0) p.persistent_keepalive then some p.persistent_keepalive else none;
    replace_allowed_ips = replace_allowed_ips;
    allowed_ips = map (ip_net_from_prefix net) p.allowed_ips;
  }

  unfoldable pub wg_peer_to_domain : WgPeer net keys → Peer net keys
  unfolding prefixes_from
  wg_peer_to_domain p = record {
    name = "";
    public_key = p.public_key;
    endpoint = p.endpoint;
    allowed_ips = prefixes_from net p.allowed_ips;
    persistent_keepalive = p.keepalive;
  }

  -- `wgtypes.PeerConfig{PublicKey: k, Remove: true}`
  unfoldable pub removal : Key → PeerConfig net keys
  removal k = record {
    public_key = k;
    remove = true;
    endpoint = none;
    keepalive = none;
    replace_allowed_ips = false;
    allowed_ips = [];
  }

  -- the map `current`: a later peer with the same key would overwrite
  unfoldable pub current_peers :
      List (Key × Peer net keys) → List (WgPeer net keys) → List (Key × Peer net keys)
  unfolding wg_peer_to_domain
  current_peers current [] = current
  current_peers current (p ∷ rest) =
      current_peers ((p.public_key, wg_peer_to_domain p) ∷ current) rest

  -- `cfg.Peers`
  unfoldable pub peer_configs : Diff net keys → List (PeerConfig net keys)
  unfolding peer_to_config removal
  peer_configs diff =
      map (λ p. peer_to_config p false) diff.added
      ++ (map (λ p. peer_to_config p true) diff.updated ++ map removal diff.removed)

  -- A device of the kernel as the client shows it: `none` and `false` are its errors.
  module _ {S : Type 0} (device : S → Option (List (WgPeer net keys)))
      (configure_device : List (PeerConfig net keys) → S → Bool × S) where
    -- The diff, the error if there is one, and the device's new state.
    unfoldable pub apply_peers : List (Peer net keys) → S → Diff net keys × Option ApplyError × S
    unfolding compute_diff is_empty current_peers peer_configs
    apply_peers desired s = elim (device s) [
      | none ↦ (record { added = []; updated = []; removed = [] }, some read_device, s)
      | some peers ↦
          let diff = compute_diff net keys (current_peers [] peers) desired in
          if is_empty net keys diff
          then (diff, none, s)
          else (let (done, s') = configure_device (peer_configs diff) s in
              if done then (diff, none, s') else (diff, some configure_peers, s'))
    ]
