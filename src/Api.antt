-- ===== src/Api.antt =====
-- The messages of api/proto/seine/controlplane/v1 (generated code), and Go's `time.Time`.
use seine.Prelude.{String, ℕ, List, Bool, ◌&&◌, nat_beq}
use seine.Prelude.Int.{ℤ, negsuc, beq_ℤ}

pub data Role : Type 0 where
  role_unspecified role_spoke role_hub : Role

-- A UTC instant: seconds since 1970 and nanoseconds within the second.
pub record Time : Type 0 where
  pub unix : ℤ
  pub nanos : ℕ

-- The zero `time.Time`, 1 January of year 1.
abbrev pub zero_time : Time
zero_time = record { unix = negsuc 62_135_596_799; nanos = 0 }

abbrev pub is_zero : Time → Bool
is_zero t = beq_ℤ t.unix (negsuc 62_135_596_799) && nat_beq t.nanos 0

-- `time.Unix(s, 0).UTC()`
abbrev pub from_unix : ℤ → Time
from_unix s = record { unix = s; nanos = 0 }

pub record RegisterRequest : Type 0 where
  pub name : String
  pub bootstrap_token : String
  pub public_key : String
  pub endpoint : String
  pub agent_version : String

pub record RegisterResponse : Type 0 where
  pub auth_token : String

pub record HeartbeatRequest : Type 0 where
  pub endpoint : String

pub record PeerInfo : Type 0 where
  pub name : String
  pub public_key : String
  pub endpoint : String
  pub tunnel_ip : String
  pub last_seen : Time
  pub role : Role

pub record HeartbeatResponse : Type 0 where
  pub spec_commit : String
  pub peers : List PeerInfo
