-- ===== src/Wg/Link.antt =====
-- internal/wg/iface_linux.go: the interface itself: `newPlatformInterface`, `Up`, `Down` and `Close`.
-- The netlink library and the wgctrl client are a parameter over the kernel's state.
use seine.Prelude.{String, Bool, true, false, not, Option, none, some, ◌&&◌, if◌then◌else◌}
use seine.Prelude.Int.{ℤ, pos, beq_ℤ, ltb_ℤ}
use seine.Prelude.Result.{Result, ok, err}
use seine.External
use seine.External.{Net}
use seine.Wg.Types.{UpOptions}
use seine.Wg.Iface.{IpNet, ip_net_from_prefix}

-- `netlink.LinkAttrs`: what `NewLinkAttrs` gives, with the name, and the MTU if it is set.
pub record LinkAttrs : Type 0 where
  pub name : String
  pub mtu : Option ℤ

-- `wgtypes.Config` with `ReplacePeers` false and no peers.
pub record DeviceConfig (keys : External.Keys) : Type 0 where
  pub private_key : keys.Key
  pub listen_port : ℤ

-- What `LinkByName` returns: a link, a `LinkNotFoundError`, or another error.
pub data Lookup (Link : Type 0) : Type 0 where
  found : Link → Lookup Link
  not_found lookup_failed : Lookup Link

-- `false` and `none` are errors.
pub record Kernel (keys : External.Keys) : Type 1 where
  pub State : Type 0
  pub Link : Type 0
  pub NlAddr : Type 0
  pub open_wgctrl : State → Bool × State
  pub close_wgctrl : State → Bool × State
  pub link_by_name : String → State → Lookup Link
  pub link_mtu : Link → ℤ
  pub link_add : LinkAttrs → State → Bool × State
  pub link_set_mtu : Link → ℤ → State → Bool × State
  pub link_set_up : Link → State → Bool × State
  pub link_del : Link → State → Bool × State
  pub configure_device : String → DeviceConfig keys → State → Bool × State
  pub ip_net_string : IpNet → String
  pub parse_addr : String → Option NlAddr
  pub addr_replace : Link → NlAddr → State → Bool × State

pub data LinkError : Type 0 where
  open_wgctrl link_lookup link_add set_mtu configure parse_addr set_address link_up link_del :
      LinkError

module _ (net : Net) (keys : External.Keys) (kernel : Kernel keys) where
  open kernel use {State, Link, NlAddr}

  -- `if err := call; err != nil { return e }`
  abbrev pub done : LinkError → Bool × State → Option LinkError × State
  done e (true, s) = (none, s)
  done e (false, s) = (some e, s)

  abbrev pub and_then :
      Option LinkError × State → (State → Option LinkError × State) → Option LinkError × State
  and_then (none, s) next = next s
  and_then (some e, s) next = (some e, s)

  -- The name stands for the interface that is returned.
  abbrev opened : String → Bool × State → Result LinkError String × State
  opened name (true, s) = (ok name, s)
  opened name (false, s) = (err open_wgctrl, s)

  unfoldable pub new_platform_interface : String → State → Result LinkError String × State
  new_platform_interface name s = opened name (kernel.open_wgctrl s)

  abbrev pub link_attrs : String → ℤ → LinkAttrs
  link_attrs name mtu = record { name = name; mtu = if ltb_ℤ (pos 0) mtu then some mtu else none }

  abbrev pub relookup : String → Bool × State → Result LinkError Link × State
  relookup name (false, s) = (err link_add, s)
  relookup name (true, s) = elim (kernel.link_by_name name s) [
    | found link ↦ (ok link, s)
    | not_found ↦ (err link_lookup, s)
    | lookup_failed ↦ (err link_lookup, s)
  ]

  unfoldable pub ensure_link : String → ℤ → State → Result LinkError Link × State
  ensure_link name mtu s = elim (kernel.link_by_name name s) [
    | found link ↦ (ok link, s)
    | lookup_failed ↦ (err link_lookup, s)
    | not_found ↦ relookup name (kernel.link_add (link_attrs name mtu) s)
  ]

  -- the step that sets the MTU of a link that had another
  unfoldable pub apply_mtu : Link → ℤ → State → Option LinkError × State
  apply_mtu link mtu s =
      if ltb_ℤ (pos 0) mtu && not (beq_ℤ (kernel.link_mtu link) mtu)
      then done set_mtu (kernel.link_set_mtu link mtu s)
      else (none, s)

  unfoldable pub netlink_addr_from_prefix : net.Prefix → Option NlAddr
  unfolding ip_net_from_prefix
  netlink_addr_from_prefix p = kernel.parse_addr (kernel.ip_net_string (ip_net_from_prefix net p))

  -- the step that sets the address
  unfoldable pub apply_address : Link → net.Prefix → State → Option LinkError × State
  unfolding netlink_addr_from_prefix
  apply_address link address s =
      if net.is_valid address
      then elim (netlink_addr_from_prefix address) [
        | none ↦ (some parse_addr, s)
        | some a ↦ done set_address (kernel.addr_replace link a s)
      ]
      else (none, s)

  abbrev pub device_config : UpOptions net keys → DeviceConfig keys
  device_config opts = record { private_key = opts.private_key; listen_port = opts.listen_port }

  -- the part of `Up` with a link
  unfoldable pub provision :
      String → UpOptions net keys → Result LinkError Link × State → Option LinkError × State
  unfolding apply_mtu apply_address
  provision name opts (err e, s) = (some e, s)
  provision name opts (ok link, s) = and_then (apply_mtu link opts.mtu s) λ s1.
      and_then (done configure (kernel.configure_device name (device_config opts) s1)) λ s2.
        and_then (apply_address link opts.address s2)
          λ s3. done link_up (kernel.link_set_up link s3)

  unfoldable pub up : String → UpOptions net keys → State → Option LinkError × State
  unfolding ensure_link provision
  up name opts s = provision name opts (ensure_link name opts.mtu s)

  unfoldable pub down : String → State → Option LinkError × State
  down name s = elim (kernel.link_by_name name s) [
    | found link ↦ done link_del (kernel.link_del link s)
    | not_found ↦ (none, s)
    | lookup_failed ↦ (some link_lookup, s)
  ]

  -- `Close`: whether the client closed
  unfoldable pub close : State → Bool × State
  close s = kernel.close_wgctrl s
