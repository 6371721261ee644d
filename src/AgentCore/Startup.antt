-- ===== src/AgentCore/Startup.antt =====
-- internal/agentcore/agent.go: the start of `Run` up to the loop: waiting for a spec, the check of
-- the mode against the spec's role, and the options of `bringUp`.
use seine.Prelude.{
  String, Bool, true, false, not, Option, none, some, List, [], ◌∷◌, ◌==◌, if◌then◌else◌,
}
use seine.Prelude.Int.{ℤ, pos}
use seine.External
use seine.External.{Net}
use seine.Api.{Role, role_hub, role_spoke, role_unspecified}
use seine.Spec.Types.{Document}
use seine.Spec.Lookup.{find_hub}
use seine.Topology.{Self}
use seine.Wg.Types.{UpOptions}
use seine.AgentCore.Config.{Config, mode_hub}

-- What the select of `waitForFirstSpec` receives: the deadline, or a signal after which `Current`
-- has a document or not.
pub data Wake : Type 0 where
  deadline : Wake
  update : Bool → Wake

-- `some true` for a spec, `some false` for the timeout, `none` while it waits.
unfoldable pub await_spec : List Wake → Option Bool
await_spec [] = none
await_spec (deadline ∷ rest) = some false
await_spec (update loaded ∷ rest) =
    let others = await_spec rest in if loaded then some true else others

unfoldable pub wait_for_first_spec : Bool → List Wake → Option Bool
unfolding await_spec
wait_for_first_spec loaded wakes = if loaded then some true else await_spec wakes

abbrev is_hub : Role → Bool
is_hub role_hub = true
is_hub role_spoke = false
is_hub role_unspecified = false

abbrev same : Bool → Bool → Bool
same true b = b
same false b = not b

-- `(self.Role == ROLE_HUB) != (cfg.Mode == ModeHub)` fails.
unfoldable pub mode_agrees : Config → Role → Bool
mode_agrees cfg role = same (is_hub role) (cfg.mode == mode_hub)

module _ (net : Net) (keys : External.Keys) where
  open net use {Prefix, parse_prefix, prefix_from, bits, split_host_port, atoi}

  -- the port of a hub's endpoint in the spec, or the network's
  unfoldable pub endpoint_port : String → ℤ → ℤ
  endpoint_port endpoint default = elim (split_host_port endpoint) [
    | none ↦ default
    | some (host, port) ↦ elim (atoi port) [ none ↦ default | some p ↦ p ]
  ]

  unfoldable pub listen_port : Config → Document → ℤ
  unfolding endpoint_port find_hub
  listen_port cfg d =
      if cfg.mode == mode_hub
      then elim (find_hub d cfg.name) [
        | none ↦ d.spec.wireguard.hub_listen_port
        | some h ↦ endpoint_port h.endpoint d.spec.wireguard.hub_listen_port
      ]
      else pos 0

  -- The options that `bringUp` passes to `iface.Up`; `none` if the overlay does not parse.
  unfoldable pub bring_up : Config → Document → Self net → keys.Key → Option (UpOptions net keys)
  unfolding listen_port
  bring_up cfg d self private = elim (parse_prefix d.spec.cidr) [
    | none ↦ none
    | some overlay ↦ some (record {
      private_key = private;
      listen_port = listen_port cfg d;
      address = prefix_from self.tunnel_ip (bits overlay);
      mtu = d.spec.wireguard.mtu;
    })
  ]
