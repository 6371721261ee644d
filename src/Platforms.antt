-- ===== src/Platforms.antt =====
-- The stubs for systems other than Linux: internal/netpolicy/firewall_other.go, forwarding_other.go and
-- internal/wg/iface_unsupported.go.
use seine.Prelude.{String}
use seine.Prelude.Result.{Result, err}
use seine.External.{Net}
use seine.NetPolicy.Compile.{Compiled}

pub data Unsupported : Type 0 where
  no_firewall not_initialised no_forwarding only_linux : Unsupported

unfoldable pub new_firewall_other : String → Result Unsupported String
new_firewall_other iface = err no_firewall

unfoldable pub reconcile_other : (net : Net) → Compiled net → Result {0, 0} Unsupported Unit
reconcile_other net c = err not_initialised

unfoldable pub ensure_ip_forwarding_other : Result {0, 0} Unsupported Unit
ensure_ip_forwarding_other = err no_forwarding

unfoldable pub new_platform_interface_other : String → Result Unsupported String
new_platform_interface_other name = err only_linux

-- `Teardown` does nothing to the state of the system.
unfoldable pub teardown_other {ℓ} : {S : Type ℓ} → S → S
teardown_other s = s
