-- ===== src/External.antt =====
-- What the program takes from Go's `net`, `net/netip` and `strconv` and from wgctrl's key type, as a
-- parameter.
use seine.Prelude.{Eq, String, Bool, Option, List, ℕ}
use seine.Prelude.Int.{ℤ}

-- `netip.Addr`, `netip.Prefix`, `net.IP` and the parsers; a parser's error is `none`.
pub record Net : Type 1 where
  pub Addr : Type 0
  pub addr_eq : Eq Addr
  pub parse_addr : String → Option Addr
  pub less : Addr → Addr → Bool
  pub addr_string : Addr → String
  pub bit_len : Addr → ℕ
  pub Prefix : Type 0
  pub prefix_eq : Eq Prefix
  pub parse_prefix : String → Option Prefix
  pub is_valid : Prefix → Bool
  pub contains : Prefix → Addr → Bool
  pub prefix_from : Addr → ℕ → Prefix
  pub prefix_addr : Prefix → Addr
  pub bits : Prefix → ℕ
  pub prefix_string : Prefix → String
  -- `Is4`, `As4`, `As16`, `AddrFromSlice` and `Unmap`, on bytes
  pub is_4 : Addr → Bool
  pub as_4 : Addr → List ℕ
  pub as_16 : Addr → List ℕ
  pub addr_from_slice : List ℕ → Option Addr
  pub unmap : Addr → Addr
  pub Ip : Type 0
  pub ip_equal : Ip → Ip → Bool
  pub parse_ip : String → Option Ip
  -- the answer of the resolver, `none` for an error
  pub lookup_ip : String → Option (List Ip)
  pub split_host_port : String → Option (String × String)
  pub atoi : String → Option ℤ

-- `wgtypes.Key`: a comparable 32-byte array with its base64 reader.
pub record Keys : Type 1 where
  pub Key : Type 0
  pub key_eq : Eq Key
  pub parse_key : String → Option Key
  pub key_string : Key → String
  -- `PublicKey` of a private key
  pub public_key : Key → Key
