-- ===== src/NetPolicy/Chain.antt =====
-- internal/netpolicy/firewall_linux.go: what the chain of `buildRules` does with a forwarded packet.
-- How iptables reads a rule is a parameter as far as addresses go: what a `-s` or `-d` text matches.
use seine.Prelude.{
  String, ◌≡◌, refl, Bool, ◌&&◌, ◌||◌, Option, none, some, List, [], ◌∷◌, ◌++◌, ◌==◌, arith,
  if◌then◌else◌, member, pair_eq,
}
use seine.External.{Net}
use seine.NetPolicy.Compile.{Rule, Compiled}
use seine.NetPolicy.Firewall.{RuleSpec, hub_rules, pair_rules, build_rules}

-- What the text of an address or of a prefix matches.
pub record AddressMatch (net : Net) : Type 0 where
  pub matches : String → net.Addr → Bool
  pub matches_addr : (a b : net.Addr) → matches (net.addr_string a) b ≡ net.addr_eq.beq b a
  pub matches_prefix :
      (p : net.Prefix) (a : net.Addr) → matches (net.prefix_string p) a ≡ net.contains p a

module _ (net : Net) where
  open net use {Addr, addr_eq}

  abbrev pub pairs : List (Rule net) → List (Addr × Addr)
  pairs [] = []
  pairs (r ∷ rest) = (r.source, r.dest) ∷ pairs rest

  abbrev pub has_pair : List (Rule net) → Addr → Addr → Bool
  has_pair rules s d = member (pair_eq addr_eq addr_eq) (s, d) (pairs rules)

module _ (net : Net) (am : AddressMatch net) where
  open net use {Addr, addr_eq, contains}

  -- The target of a rule, if a packet between two addresses meets its conditions.
  abbrev target : RuleSpec → Addr → Addr → Option String
  target [] s d = none
  target (flag ∷ []) s d = none
  target (flag ∷ value ∷ rest) s d =
      let others = target rest s d in
      if flag == "-s"
      then (if am.matches value s then others else none)
      else if flag == "-d"
      then (if am.matches value d then others else none)
      else if flag == "-j"
      then some value
      else none

  abbrev first_of_two : Option String → Option String → Option String
  first_of_two none o = o
  first_of_two (some t) o = some t

  -- The first rule that matches decides.
  abbrev pub walk : List RuleSpec → Addr → Addr → Option String
  walk [] s d = none
  walk (r ∷ rest) s d = first_of_two (target r s d) (walk rest s d)

  walk-append :
      (xs ys : List RuleSpec) (s d : Addr)
      → walk (xs ++ ys) s d ≡ first_of_two (walk xs s d) (walk ys s d)
  walk-append [] ys s d = refl
  walk-append (x ∷ xs) ys s d = ground (arith, walk-append xs ys s d)

  walk-hub_rules :
      (hubs : List Addr) (s d : Addr)
      → walk (hub_rules net hubs) s d
        ≡ (if member addr_eq s hubs || member addr_eq d hubs then some "ACCEPT" else none)
  unfolding hub_rules
  walk-hub_rules [] s d = refl
  walk-hub_rules (h ∷ rest) s d =
      ground (arith, am.matches_addr h s, am.matches_addr h d, walk-hub_rules rest s d)

  walk-pair_rules :
      (verdict : String) (rules : List (Rule net)) (s d : Addr)
      → walk (pair_rules net verdict rules) s d
        ≡ (if has_pair net rules s d then some verdict else none)
  unfolding pair_rules
  walk-pair_rules verdict [] s d = refl
  walk-pair_rules verdict (r ∷ rest) s d = ground (
    arith,
    am.matches_addr r.source s,
    am.matches_addr r.dest d,
    walk-pair_rules verdict rest s d,
  )

  -- A packet that the chain sees is accepted if an end of it is a hub, else dropped if its pair is
  -- denied, else accepted if its pair is allowed, else dropped if both ends lie in the overlay, and
  -- else returned to the FORWARD chain.
  pub walk-build_rules :
      (c : Compiled net) (s d : Addr)
      → walk (build_rules net c) s d
        ≡ some (
            if member addr_eq s c.hub_ips || member addr_eq d c.hub_ips
            then "ACCEPT"
            else if has_pair net c.denies s d
            then "DROP"
            else if has_pair net c.allows s d
            then "ACCEPT"
            else if contains c.overlay s && contains c.overlay d
            then "DROP"
            else "RETURN")
  unfolding build_rules
  walk-build_rules c s d =
      simp (walk-append, walk-hub_rules, walk-pair_rules)
        (ground (arith, am.matches_prefix c.overlay s, am.matches_prefix c.overlay d))
