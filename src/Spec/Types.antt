-- ===== src/Spec/Types.antt =====
-- internal/spec/types.go: the network document as it is decoded from YAML.
use seine.Prelude.{String, List, ℕ}
use seine.Prelude.Int.{ℤ, pos}

-- `time.Duration`: nanoseconds.
abbrev pub Duration : Type 0
Duration = ℤ

abbrev pub second : ℕ
second = 1_000_000_000

abbrev pub api_version : String
api_version = "seine.io/v1"

abbrev pub kind : String
kind = "Network"

abbrev pub default_mtu : ℤ
default_mtu = pos 1420

abbrev pub default_persistent_keepalive : Duration
default_persistent_keepalive = pos 25_000_000_000

abbrev pub default_hub_listen_port : ℤ
default_hub_listen_port = pos 51820

-- The verb of a rule is a text, as the file has it.
abbrev pub Action : Type 0
Action = String

abbrev pub action_allow : Action
action_allow = "allow"

abbrev pub action_deny : Action
action_deny = "deny"

pub record Metadata : Type 0 where
  pub name : String
  pub description : String

pub record WireGuard : Type 0 where
  pub mtu : ℤ
  pub persistent_keepalive : Duration
  pub hub_listen_port : ℤ

pub record Hub : Type 0 where
  pub name : String
  pub endpoint : String
  pub tunnel_ip : String

pub record Agent : Type 0 where
  pub name : String
  pub tunnel_ip : String
  pub hub : String
  pub groups : List String

pub record Acl : Type 0 where
  pub from : List String
  pub to : List String
  pub action : Action

pub record Network : Type 0 where
  pub cidr : String
  pub wireguard : WireGuard
  pub hubs : List Hub
  pub agents : List Agent
  pub groups : List String
  pub acls : List Acl

pub record Document : Type 0 where
  pub api_version : String
  pub kind : String
  pub metadata : Metadata
  pub spec : Network
