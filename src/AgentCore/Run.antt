-- ===== src/AgentCore/Run.antt =====
-- internal/agentcore/agent.go: `Run`, with its deferred calls in their order. What the file system, the
-- server, the watcher and the context answer on the way is an input.
use seine.Prelude.{String, Bool, true, false, not, Option, none, some, List, ◌==◌, if◌then◌else◌}
use seine.Prelude.Result.{ok, err}
use seine.External
use seine.External.{Net}
use seine.Spec.Types.{Document}
use seine.Topology.{Self, TopologyError, find_self}
use seine.Wg.Keys.{Keypair, ReadFile, KeyError, load_or_generate}
use seine.Wg.Iface.{WgPeer, PeerConfig}
use seine.Wg.Link.{Kernel, LinkError, new_platform_interface, up, down, close}
use seine.NetPolicy.Firewall.{IpTables, new_firewall, teardown}
use seine.NetPolicy.Forwarding.{ForwardingError, ensure_ip_forwarding}
use seine.AgentCore.Config.{Agent, mode_hub}
use seine.AgentCore.Enrolment.{
  Attempt, AgentError, TokenFile, registered, waiting, aborted, load_or_register,
}
use seine.AgentCore.Startup.{Wake, wait_for_first_spec, mode_agrees, bring_up}
use seine.AgentCore.Reconcile.{Cycle, Host, reconcile_loop}

pub data RunError : Type 0 where
  state_dir dial spec_timeout spec_unavailable mode_mismatch spec_for_bring_up parse_overlay :
      RunError
  keypair : KeyError → RunError
  enrol : AgentError → RunError
  self_lookup : TopologyError → RunError
  interface bring_up_link : LinkError → RunError
  forwarding : ForwardingError → RunError
  firewall : RunError

-- How `Run` returns: nil, an error, or not yet.
pub data Exit : Type 0 where
  stopped pending : Exit
  failed : RunError → Exit

-- What `Run` meets: `loaded` and `current` are what `Current` answers before the wait and after it,
-- `current_up` in `bringUp`; the cycles end with the context.
pub record Boot (keys : External.Keys) : Type 0 where
  pub state_dir_ok : Bool
  pub key_file : ReadFile
  pub fresh_key : Option keys.Key
  pub mkdir_ok : Bool
  pub write_ok : Bool
  pub dial_ok : Bool
  pub token_file : TokenFile
  pub attempts : List (Attempt × Bool)
  pub loaded : Bool
  pub wakes : List Wake
  pub current : Option Document
  pub current_up : Option Document
  pub forwarding_writable : Bool
  pub iptables_ok : Bool
  pub first : Cycle
  pub cycles : List Cycle

module _ (net : Net) (keys : External.Keys) (kernel : Kernel keys)
    (device : kernel.State → Option (List (WgPeer net keys)))
    (configure_device : List (PeerConfig net keys) → kernel.State → Bool × kernel.State)
    (ipt : IpTables) (agent : Agent) where
  -- The agent's host, whether the connection to the server is open, the forwarding switch, and the text
  -- of the key's file if this run has written it.
  pub record Machine : Type 0 where
    pub host : Host net keys device configure_device ipt
    pub connected : Bool
    pub ip_forward : Option String
    pub key_file : Option String

  abbrev pub name : String
  name = agent.cfg.interface_name

  abbrev pub with_wireguard : kernel.State → Machine → Machine
  with_wireguard s m = record m { host = record (m.host) { wireguard = s } }

  -- A deferred call runs when `Run` returns.
  abbrev pub deferred : (Machine → Machine) → Exit × Machine → Exit × Machine
  deferred f (pending, m) = (pending, m)
  deferred f (stopped, m) = (stopped, f m)
  deferred f (failed e, m) = (failed e, f m)

  -- the deferred functions
  abbrev pub close_conn : Machine → Machine
  close_conn m = record m { connected = false }

  unfoldable pub close_interface : Machine → Machine
  unfolding close
  close_interface m = with_wireguard (close net keys kernel m.host.wireguard).1 m

  unfoldable pub take_down : Machine → Machine
  unfolding down
  take_down m = with_wireguard (down net keys kernel name m.host.wireguard).1 m

  unfoldable pub tear_down_firewall : Machine → Machine
  unfolding teardown
  tear_down_firewall m = record m {
    host = record (m.host) { tables = teardown ipt name m.host.tables };
  }

  -- the loop, until the context is cancelled
  unfoldable pub run_loop : Boot keys → Self net → Bool → Machine → Exit × Machine
  unfolding reconcile_loop
  run_loop boot self hub m =
      let h = record (m.host) { firewalled = hub } in
      let looped =
        reconcile_loop net keys device configure_device ipt agent.cfg self boot.first boot.cycles
          h in
      (stopped, record m { host = looped.1 })

  -- the part of a hub
  unfoldable pub run_hub : Boot keys → Self net → Machine → Exit × Machine
  unfolding ensure_ip_forwarding new_firewall tear_down_firewall run_loop
  run_hub boot self m =
      let switched = ensure_ip_forwarding m.ip_forward boot.forwarding_writable in
      let m' = record m { ip_forward = switched.1 } in
      elim (switched.0) [
        | some e ↦ (failed (forwarding e), m')
        | none ↦ elim (new_firewall boot.iptables_ok name) [
          | none ↦ (failed firewall, m')
          | some fw ↦ deferred tear_down_firewall (run_loop boot self true m')
        ]
      ]

  -- after the interface is up
  unfoldable pub run_up : Boot keys → Self net → Machine → Exit × Machine
  unfolding run_hub run_loop
  run_up boot self m =
      if agent.cfg.mode == mode_hub then run_hub boot self m else run_loop boot self false m

  unfoldable pub run_bring_up : Boot keys → Keypair keys → Self net → Machine → Exit × Machine
  unfolding bring_up up take_down run_up
  run_bring_up boot kp self m = elim boot.current_up [
    | none ↦ (failed spec_for_bring_up, m)
    | some doc ↦ elim (bring_up net keys agent.cfg doc self kp.private) [
      | none ↦ (failed parse_overlay, m)
      | some opts ↦
          let raised = up net keys kernel name opts m.host.wireguard in
          let m' = with_wireguard raised.1 m in
          elim (raised.0) [
            | some e ↦ (failed (bring_up_link e), m')
            | none ↦ deferred take_down (run_up boot self m')
          ]
    ]
  ]

  -- the role of the spec against the mode, and the interface
  unfoldable pub run_as : Boot keys → Keypair keys → Self net → Machine → Exit × Machine
  unfolding mode_agrees new_platform_interface close_interface run_bring_up
  run_as boot kp self m =
      if not (mode_agrees agent.cfg self.role)
      then (failed mode_mismatch, m)
      else (let made = new_platform_interface net keys kernel name m.host.wireguard in
          let m' = with_wireguard made.1 m in
          elim (made.0) [
            | err e ↦ (failed (interface e), m')
            | ok iface ↦ deferred close_interface (run_bring_up boot kp self m')
          ])

  -- after a first spec
  unfoldable pub run_spec : Boot keys → Keypair keys → Machine → Exit × Machine
  unfolding find_self run_as
  run_spec boot kp m = elim boot.current [
    | none ↦ (failed spec_unavailable, m)
    | some doc ↦ elim (find_self net doc agent.cfg.name) [
      | err e ↦ (failed (self_lookup e), m)
      | ok self ↦ run_as boot kp self m
    ]
  ]

  unfoldable pub run_connected : Boot keys → Keypair keys → Machine → Exit × Machine
  unfolding load_or_register wait_for_first_spec run_spec
  run_connected boot kp m =
      let enrolled =
        load_or_register boot.token_file agent.cfg.bootstrap_token boot.attempts m.host.identity in
      let m' = record m { host = record (m.host) { identity = enrolled.1 } } in
      elim (enrolled.0) [
        | waiting ↦ (pending, m')
        | aborted e ↦ (failed (enrol e), m')
        | registered ↦ elim (wait_for_first_spec boot.loaded boot.wakes) [
          | none ↦ (pending, m')
          | some loaded ↦ if loaded then run_spec boot kp m' else (failed spec_timeout, m')
        ]
      ]

  abbrev pub or_kept : Option String → Option String → Option String
  or_kept none old = old
  or_kept (some text) old = some text

  unfoldable pub run : Boot keys → Machine → Exit × Machine
  unfolding load_or_generate run_connected
  run boot m =
      if not boot.state_dir_ok
      then (failed state_dir, m)
      else (let loaded =
            load_or_generate keys boot.key_file boot.fresh_key boot.mkdir_ok boot.write_ok in
          let m' = record m { key_file = or_kept loaded.1 m.key_file } in
          elim (loaded.0) [
            | err e ↦ (failed (keypair e), m')
            | ok kp ↦
                if boot.dial_ok
                then deferred close_conn (run_connected boot kp (record m' { connected = true }))
                else (failed dial, m')
          ])
