-- ===== src/Wg/Types.antt =====
-- internal/wg/types.go. A nil `*net.UDPAddr` is `none`.
use seine.Prelude.{String, Option, List}
use seine.Prelude.Int.{ℤ}
use seine.External
use seine.External.{Net}
use seine.Spec.Types.{Duration}

-- `net.UDPAddr`
pub record UdpAddr (net : Net) : Type 0 where
  pub ip : net.Ip
  pub port : ℤ
  pub zone : String

pub record Peer (net : Net) (keys : External.Keys) : Type 0 where
  pub name : String
  pub public_key : keys.Key
  pub endpoint : Option (UdpAddr net)
  pub allowed_ips : List net.Prefix
  pub persistent_keepalive : Duration

pub record UpOptions (net : Net) (keys : External.Keys) : Type 0 where
  pub private_key : keys.Key
  pub listen_port : ℤ
  pub address : net.Prefix
  pub mtu : ℤ
