-- ===== src/Spec/Validate/Problems.antt =====
-- internal/spec/validate.go: the errors that `Validate` joins. An index is the position in the list
-- that the message names; the text of a wrapped error is not kept.
use seine.Prelude.{ℕ, String}
use seine.Prelude.Int.{ℤ}

-- the values of the map `names`
pub data Owner : Type 0 where
  hub_owner agent_owner : Owner

-- `spec.hubs[i]` and `spec.agents[i]`
pub data Site : Type 0 where
  hub_at agent_at : ℕ → Site

-- the errors of `validateEndpoint`
pub data EndpointError : Type 0 where
  not_host_port host_empty bad_port : EndpointError

pub data Problem : Type 0 where
  api_version kind metadata_name cidr_unparsable cidr_invalid : String → Problem
  mtu hub_listen_port : ℤ → Problem
  group_name group_duplicate : ℕ → String → Problem
  name_invalid : Site → String → Problem
  name_used : Site → String → Owner → Problem
  endpoint_required : ℕ → Problem
  endpoint_malformed : ℕ → EndpointError → Problem
  tunnel_ip_unparsable tunnel_ip_outside : Site → String → Problem
  tunnel_ip_used : Site → String → String → Problem
  hub_required : ℕ → Problem
  hub_unknown : ℕ → String → Problem
  agent_group_undeclared agent_group_duplicate : ℕ → ℕ → String → Problem
  action_invalid : ℕ → String → Problem
  from_empty to_empty : ℕ → Problem
  from_undeclared to_undeclared : ℕ → ℕ → String → Problem
  no_hubs : Problem
