-- ===== src/Examples/Sample.antt =====
-- Three hosts with their addresses, and a document that declares them.
use seine.Prelude.{
  ℕ, String, ◌≡◌, refl, ◌↔◌, Bool, true, false, Eq, Option, none, some, [], ◌∷◌, ◌==◌, ◌&&◌, ◌||◌,
  arith, inl, inr, Bool-cases, nat_beq, nat_eq, pair_eq, if◌then◌else◌,
}
use seine.Prelude.Int.{pos}
use seine.External.{Net}
use seine.Spec.Types
use seine.Spec.Types.{Document, Hub, Agent, Acl, Network, Metadata, WireGuard}
use seine.NetPolicy.Chain.{AddressMatch}

pub data Host : Type 0 where
  gateway laptop server : Host

abbrev pub host_beq : Host → Host → Bool
host_beq gateway gateway = true
host_beq laptop laptop = true
host_beq server server = true
host_beq gateway laptop = false
host_beq gateway server = false
host_beq laptop gateway = false
host_beq laptop server = false
host_beq server gateway = false
host_beq server laptop = false

pub host_beq_iff : (a b : Host) → (host_beq a b ≡ true) ↔ (a ≡ b)
host_beq_iff gateway gateway = ground arith
host_beq_iff laptop laptop = ground arith
host_beq_iff server server = ground arith
host_beq_iff gateway laptop = ground arith
host_beq_iff gateway server = ground arith
host_beq_iff laptop gateway = ground arith
host_beq_iff laptop server = ground arith
host_beq_iff server gateway = ground arith
host_beq_iff server laptop = ground arith

abbrev pub host_eq : Eq Host
host_eq = record { beq = host_beq; beq_iff = host_beq_iff }

abbrev pub host_string : Host → String
host_string gateway = "10.0.0.1"
host_string laptop = "10.0.0.2"
host_string server = "10.0.0.3"

abbrev pub parse_host : String → Option Host
parse_host s =
    if s == "10.0.0.1"
    then some gateway
    else if s == "10.0.0.2"
    then some laptop
    else if s == "10.0.0.3"
    then some server
    else none

abbrev pub host_less : Host → Host → Bool
host_less gateway laptop = true
host_less gateway server = true
host_less laptop server = true
host_less _ _ = false

abbrev pub overlay_string : String
overlay_string = "10.0.0.0/24"

abbrev pub prefix_text : Host × ℕ → String
prefix_text (h, n) = if nat_beq n 32 then host_string h else overlay_string

abbrev pub covers : Host × ℕ → Host → Bool
covers (h, n) a = if nat_beq n 32 then host_beq a h else true

abbrev pub proper : Host × ℕ → Bool
proper (h, n) = nat_beq n 32 || nat_beq n 24 && host_beq h gateway

-- The network's addresses and its one overlay.
abbrev pub sample_net : Net
sample_net = record {
  Addr = Host;
  addr_eq = host_eq;
  parse_addr = parse_host;
  less = host_less;
  addr_string = host_string;
  bit_len = λ a. 32;
  Prefix = Host × ℕ;
  prefix_eq = pair_eq host_eq nat_eq;
  parse_prefix = λ s. if s == overlay_string then some (gateway, 24) else none;
  is_valid = proper;
  contains = covers;
  prefix_from = λ a n. (a, n);
  prefix_addr = λ p. p.0;
  bits = λ p. p.1;
  prefix_string = prefix_text;
  is_4 = λ a. true;
  as_4 = λ a. [];
  as_16 = λ a. [];
  addr_from_slice = λ bs. none;
  unmap = λ a. a;
  Ip = Host;
  ip_equal = host_beq;
  parse_ip = parse_host;
  lookup_ip = λ host. none;
  split_host_port = λ ep. some (ep, "51820");
  atoi = λ s. some (pos 51820);
}

abbrev pub matches_text : String → Host → Bool
matches_text s a =
    if s == overlay_string
    then true
    else if s == "10.0.0.1"
    then host_beq a gateway
    else if s == "10.0.0.2"
    then host_beq a laptop
    else if s == "10.0.0.3"
    then host_beq a server
    else false

pub matches_host : (a b : Host) → matches_text (host_string a) b ≡ host_beq b a
matches_host gateway b = refl
matches_host laptop b = refl
matches_host server b = refl

pub matches_covers : (p : Host × ℕ) (a : Host) → matches_text (prefix_text p) a ≡ covers p a
matches_covers (h, n) a = elim (Bool-cases (nat_beq n 32)) [
  | inl p ↦ rw p (matches_host h a)
  | inr p ↦ rw p refl
]

abbrev pub sample_match : AddressMatch sample_net
sample_match = record {
  matches = matches_text;
  matches_addr = matches_host;
  matches_prefix = matches_covers;
}

abbrev pub office : Agent
office = record { name = "laptop"; tunnel_ip = "10.0.0.2"; hub = "gw"; groups = "staff" ∷ [] }

abbrev pub database : Agent
database = record { name = "server"; tunnel_ip = "10.0.0.3"; hub = "gw"; groups = "servers" ∷ [] }

abbrev pub entry : Hub
entry = record { name = "gw"; endpoint = "gw.example.org:51820"; tunnel_ip = "10.0.0.1" }

abbrev pub staff_rule : Acl
staff_rule = record { from = "staff" ∷ []; to = "servers" ∷ []; action = "allow" }

abbrev pub sample_doc : Document
sample_doc = record {
  api_version = Types.api_version;
  kind = Types.kind;
  metadata = record { name = "sample"; description = "" };
  spec = record {
    cidr = overlay_string;
    wireguard = record {
      mtu = Types.default_mtu;
      persistent_keepalive = Types.default_persistent_keepalive;
      hub_listen_port = Types.default_hub_listen_port;
    };
    hubs = entry ∷ [];
    agents = office ∷ database ∷ [];
    groups = "staff" ∷ "servers" ∷ [];
    acls = staff_rule ∷ [];
  };
}
