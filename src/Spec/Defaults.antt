-- ===== src/Spec/Defaults.antt =====
-- internal/spec/defaults.go: zero-valued fields get the project's defaults.
use seine.Prelude.{String, ◌==◌, if◌then◌else◌}
use seine.Prelude.Int.{ℤ, pos, beq_ℤ}
use seine.Spec.Types
use seine.Spec.Types.{Document, WireGuard}

abbrev pub or_text : String → String → String
or_text s default = if s == "" then default else s

abbrev pub or_number : ℤ → ℤ → ℤ
or_number n default = if beq_ℤ n (pos 0) then default else n

unfoldable pub wireguard_defaults : WireGuard → WireGuard
wireguard_defaults wg = record {
  mtu = or_number wg.mtu Types.default_mtu;
  persistent_keepalive = or_number wg.persistent_keepalive Types.default_persistent_keepalive;
  hub_listen_port = or_number wg.hub_listen_port Types.default_hub_listen_port;
}

unfoldable pub apply_defaults : Document → Document
unfolding wireguard_defaults
apply_defaults d = record d {
  api_version = or_text d.api_version Types.api_version;
  kind = or_text d.kind Types.kind;
  spec = record (d.spec) { wireguard = wireguard_defaults d.spec.wireguard };
}
