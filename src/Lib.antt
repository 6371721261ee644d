-- ===== src/Lib.antt =====
-- Seine: a hub-and-spoke overlay network on WireGuard that is managed from a document in Git.
--
-- The management server (internal/controlplane, internal/store) enrols agents by a bootstrap token,
-- authenticates them by bearer tokens and answers heartbeats with the registry of peers. Server and
-- agents each watch the Git repository (internal/specsource over internal/gitsource) for the network
-- document, which internal/spec decodes, completes and validates. An agent (internal/agentcore)
-- registers, brings its interface up, then reconciles in a loop: from the document and the registry
-- internal/topology derives the WireGuard peers, internal/wg applies the difference to the device, and
-- on a hub internal/netpolicy compiles the document's ACL and enforces it by an iptables chain. The two
-- programs of cmd/ read their options, set up logging and telemetry (internal/logging, internal/otel)
-- and compose these parts.
--
-- Files and code:
--   Prelude (Prelude/*)    shared: tests, lists, Go's int64 and time values, results, sorting, texts
--   External               Go's net, netip and strconv and wgctrl's keys, as parameters
--   Api                    api/proto/seine/controlplane/v1/controlplane.proto, and `time.Time`
--   Spec (Spec/*)          internal/spec: Types, Lookup, Defaults, Parse, Validate, Duration, and
--                          Marshal in RoundTrip
--   Topology               internal/topology/topology.go
--   Wg (Wg/*)              internal/wg: Types, Diff (diff.go), Iface (ApplyPeers of iface_linux.go),
--                          Link (Up, Down and Close), Status, Keys (keys.go)
--   NetPolicy (NetPolicy/*) internal/netpolicy: Compile (netpolicy.go), Firewall (firewall_linux.go),
--                          Forwarding (forwarding_linux.go)
--   Store (Store/*)        internal/store/store.go: a table is the list of its rows; Store/Open has
--                          Open and migrate
--   ControlPlane (ControlPlane/*)  internal/controlplane: Roles (spec.go), Auth and Random
--                          (auth.go), Server (server.go)
--   GitSource (GitSource/*)  internal/gitsource: source.go, Credentials (auth.go); Transport is the
--                          parameter for go-git
--   SpecSource (SpecSource/*)  internal/specsource/watcher.go: the cache and the loop; SpecSource/Follow
--                          composes them with GitSource
--   Logging, Otel, Buildinfo  internal/logging/logging.go, internal/otel/otel.go,
--                          internal/buildinfo/buildinfo.go
--   Platforms              the stubs for other systems in internal/netpolicy and internal/wg
--   AgentCore (AgentCore/*)  internal/agentcore/agent.go: Config, Enrolment, Startup, Reconcile, Run
--   Command (Command/*)    cmd/seine-agent/main.go (Agent, AgentRun) and cmd/seine-server/main.go (Server,
--                          ServerRun), what both share (Options), and Go's package flag (Flags)
--   Examples (Examples/*)  a sample network at which the theorems are applied
--
-- The other modules of a directory hold the theorems on its code, under the name of what they prove.
--
-- Functions keep the names of the code in snake case. A Go error is a constructor of an error type, a
-- nil pointer is `none`, a map is an association list, and a method that changes its receiver returns
-- the new state. What a call meets outside (clock, random source, file system, driver, network) is an
-- argument; the loops of the watcher and of the agent run over the list of rounds that they meet, so
-- no fuel is needed. Durations are int64 nanoseconds, whose products wrap as in Go. A deferred call is
-- applied to the result of what follows it, so that it runs on every way to return. The goroutine
-- of a program's watcher, which nobody waits for, pulls at the instants of a list, and what a pull that
-- is under way does while the watcher is closed, and after, is any function on the files.
--
-- Parameters: the address and key types with their parsers (External), SHA-256, the YAML decoder, the
-- kernel's WireGuard device, the netlink library, the iptables client, go-git with the file system,
-- the telemetry SDK, time.ParseDuration and filepath.Join. Laws about them are hypotheses: how iptables
-- matches an address (NetPolicy.Chain.AddressMatch) and lists a chain (NetPolicy.Install.Listing), that
-- a key's text holds no white space and reads back (Wg.Identity.KeyLaws), what a clone and a fetch leave
-- (GitSource.Tip.GitLaws), that a prefix holds its address where it has no zone (Topology.Routed.PrefixLaws), that valid
-- prefixes have different texts (Wg.Settings.TextLaws), what each
-- netlink call changes (Wg.Provision.LinkLaws), which peers a device has after a configuration
-- (Wg.Applied.DeviceLaws), which providers run (Otel.Drained.SdkLaws), that YAML reads what it wrote
-- and a duration's text reads back (Spec.RoundTrip.YamlLaws and TimeLaws).
--
-- Not modelled: the lines that are logged, signals and the gRPC server's own loop, the log bridge of
-- internal/otel, the generated gRPC code, and the texts of error messages.
pub mod Prelude
pub mod External
pub mod Api
pub mod Spec
pub mod Wg
pub mod Topology
pub mod NetPolicy
pub mod Store
pub mod ControlPlane
pub mod GitSource
pub mod SpecSource
pub mod Logging
pub mod Buildinfo
pub mod Otel
pub mod Platforms
pub mod AgentCore
pub mod Command
pub mod Examples
