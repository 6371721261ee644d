-- ===== src/ControlPlane/Roles.antt =====
-- internal/controlplane/spec.go: what the network document says of a name. A nil document is `none`.
use seine.Prelude.{String, Option, none, some}
use seine.Api.{Role, role_unspecified, role_hub, role_spoke}
use seine.Spec.Types.{Document, Hub, Agent}
use seine.Spec.Lookup.{find_hub, find_agent}

unfoldable pub resolve_role : Option Document → String → Role × Option Hub × Option Agent
unfolding find_hub find_agent
resolve_role none name = (role_unspecified, none, none)
resolve_role (some d) name = elim (find_hub d name) [
  | some h ↦ (role_hub, some h, none)
  | none ↦ elim (find_agent d name) [
    | some a ↦ (role_spoke, none, some a)
    | none ↦ (role_unspecified, none, none)
  ]
]

unfoldable pub tunnel_ip_for : Option Document → String → String
unfolding find_hub find_agent
tunnel_ip_for none name = ""
tunnel_ip_for (some d) name = elim (find_hub d name) [
  | some h ↦ h.tunnel_ip
  | none ↦ elim (find_agent d name) [ some a ↦ a.tunnel_ip | none ↦ "" ]
]
