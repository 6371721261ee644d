-- ===== src/NetPolicy/Firewall.antt =====
-- internal/netpolicy/firewall_linux.go: the chain that enforces a compiled policy. The go-iptables
-- client is a parameter; `none` and `false` are its errors.
use seine.Prelude.{
  ℕ, String, Bool, true, false, Option, none, some, List, [], ◌∷◌, ◌++◌, if◌then◌else◌,
}
use seine.External.{Net}
use seine.NetPolicy.Compile.{Rule, Compiled}

-- The rule specification that iptables is given: its arguments.
abbrev pub RuleSpec : Type 0
RuleSpec = List String

-- The client over the state of the kernel's tables: table, chain and rule as in its methods.
pub record IpTables : Type 1 where
  pub State : Type 0
  pub chain_exists : String → String → State → Option Bool
  pub new_chain : String → String → State → Bool × State
  pub exists : String → String → RuleSpec → State → Option Bool
  pub insert : String → String → ℕ → RuleSpec → State → Bool × State
  pub clear_chain : String → String → State → Bool × State
  pub append : String → String → RuleSpec → State → Bool × State
  pub delete : String → String → RuleSpec → State → Bool × State
  pub delete_chain : String → String → State → Bool × State

abbrev pub firewall_chain : String
firewall_chain = "SEINE-FWD"

pub data FirewallError : Type 0 where
  chain_query create_chain jump_query insert_jump clear : FirewallError
  append : RuleSpec → FirewallError

module _ (net : Net) where
  open net use {Addr, addr_string, prefix_string}

  -- the loop over `c.HubIPs`
  unfoldable pub hub_rules : List Addr → List RuleSpec
  hub_rules [] = []
  hub_rules (h ∷ rest) =
      ("-s" ∷ addr_string h ∷ "-j" ∷ "ACCEPT" ∷ [])
      ∷ ("-d" ∷ addr_string h ∷ "-j" ∷ "ACCEPT" ∷ [])
      ∷ hub_rules rest

  -- the loops over `c.Denies` and `c.Allows`
  unfoldable pub pair_rules : String → List (Rule net) → List RuleSpec
  pair_rules target [] = []
  pair_rules target (r ∷ rest) =
      ("-s" ∷ addr_string r.source ∷ "-d" ∷ addr_string r.dest ∷ "-j" ∷ target ∷ [])
      ∷ pair_rules target rest

  unfoldable pub build_rules : Compiled net → List RuleSpec
  unfolding hub_rules pair_rules
  build_rules c =
      hub_rules c.hub_ips
      ++ (pair_rules "DROP" c.denies
          ++ (pair_rules "ACCEPT" c.allows
              ++ ("-s"
                  ∷ prefix_string c.overlay
                  ∷ "-d"
                  ∷ prefix_string c.overlay
                  ∷ "-j"
                  ∷ "DROP"
                  ∷ [])
                ∷ ("-j" ∷ "RETURN" ∷ [])
                ∷ []))

unfoldable pub forward_jump : String → RuleSpec
forward_jump iface = "-i" ∷ iface ∷ "-o" ∷ iface ∷ "-j" ∷ firewall_chain ∷ []

-- `NewFirewall`: whether `iptables.New` succeeds; the name stands for the firewall of an interface.
unfoldable pub new_firewall : Bool → String → Option String
new_firewall initialised iface = if initialised then some iface else none

module _ (ipt : IpTables) where
  open ipt use {State}

  abbrev pub done : FirewallError → Bool × State → Option FirewallError × State
  done e (true, s) = (none, s)
  done e (false, s) = (some e, s)

  unfoldable pub ensure_chain : State → Option FirewallError × State
  ensure_chain s = elim (ipt.chain_exists "filter" firewall_chain s) [
    | none ↦ (some chain_query, s)
    | some exists ↦
        if exists then (none, s) else done create_chain (ipt.new_chain "filter" firewall_chain s)
  ]

  unfoldable pub ensure_forward_jump : String → State → Option FirewallError × State
  unfolding forward_jump
  ensure_forward_jump iface s = elim (ipt.exists "filter" "FORWARD" (forward_jump iface) s) [
    | none ↦ (some jump_query, s)
    | some exists ↦
        if exists
        then (none, s)
        else done insert_jump (ipt.insert "filter" "FORWARD" 1 (forward_jump iface) s)
  ]

  -- the loop over the rules
  unfoldable pub append_rules : List RuleSpec → State → Option FirewallError × State
  append_rules [] s = (none, s)
  append_rules (r ∷ rest) s =
      let (appended, s') = ipt.append "filter" firewall_chain r s in
      elim appended [ true ↦ append_rules rest s' | false ↦ (some (append r), s') ]

  -- `if err := step(); err != nil { return err }`
  abbrev pub and_then :
      Option FirewallError × State
      → (State → Option FirewallError × State)
      → Option FirewallError × State
  and_then (none, s) next = next s
  and_then (some e, s) next = (some e, s)

  unfoldable pub reconcile :
      (net : Net) → String → Compiled net → State → Option FirewallError × State
  unfolding ensure_chain ensure_forward_jump append_rules build_rules
  reconcile net iface c s = and_then (ensure_chain s) λ s'.
      and_then (ensure_forward_jump iface s') λ s''.
        and_then (done clear (ipt.clear_chain "filter" firewall_chain s''))
          λ s'''. append_rules (build_rules net c) s'''

  -- `if exists, _ := ...; exists`
  abbrev holds : Option Bool → Bool
  holds none = false
  holds (some b) = b

  -- Best effort: errors are only logged.
  unfoldable pub teardown : String → State → State
  unfolding forward_jump
  teardown iface s =
      let s' =
        if holds (ipt.exists "filter" "FORWARD" (forward_jump iface) s)
        then (ipt.delete "filter" "FORWARD" (forward_jump iface) s).1
        else s in
      if holds (ipt.chain_exists "filter" firewall_chain s')
      then (ipt.delete_chain "filter" firewall_chain
          (ipt.clear_chain "filter" firewall_chain s').1).1
      else s'
