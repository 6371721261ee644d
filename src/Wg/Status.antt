-- ===== src/Wg/Status.antt =====
-- internal/wg: `Status`, what the interface reports for telemetry.
use seine.Prelude.{String, Option, none, some, List, map}
use seine.Prelude.Int.{ℤ}
use seine.External
use seine.External.{Net}
use seine.Api.{Time}
use seine.Wg.Types.{UdpAddr}
use seine.Wg.Iface.{IpNet, prefixes_from}

module _ (net : Net) (keys : External.Keys) where
  open keys use {Key}

  -- `wgtypes.Peer` and `wgtypes.Device`, the fields that are read.
  pub record DevicePeer : Type 0 where
    pub public_key : Key
    pub endpoint : Option (UdpAddr net)
    pub allowed_ips : List IpNet
    pub last_handshake_time : Time
    pub receive_bytes : ℤ
    pub transmit_bytes : ℤ

  pub record Device : Type 0 where
    pub name : String
    pub public_key : Key
    pub listen_port : ℤ
    pub peers : List DevicePeer

  pub record PeerStatus : Type 0 where
    pub public_key : Key
    pub endpoint : Option (UdpAddr net)
    pub allowed_ips : List net.Prefix
    pub last_handshake : Time
    pub bytes_received : ℤ
    pub bytes_transmitted : ℤ

  pub record Status : Type 0 where
    pub name : String
    pub public_key : Key
    pub listen_port : ℤ
    pub peers : List PeerStatus

  -- the body of the loop over `dev.Peers`
  unfoldable pub peer_status : DevicePeer → PeerStatus
  unfolding prefixes_from
  peer_status p = record {
    public_key = p.public_key;
    endpoint = p.endpoint;
    allowed_ips = prefixes_from net p.allowed_ips;
    last_handshake = p.last_handshake_time;
    bytes_received = p.receive_bytes;
    bytes_transmitted = p.transmit_bytes;
  }

  -- `Status` of a device as the client shows it; `none` is an error.
  unfoldable pub status : Option Device → Option Status
  unfolding peer_status
  status none = none
  status (some dev) = some (record {
    name = dev.name;
    public_key = dev.public_key;
    listen_port = dev.listen_port;
    peers = map peer_status dev.peers;
  })
