-- ===== src/NetPolicy/Install.antt =====
-- internal/netpolicy/firewall_linux.go: what `Reconcile` leaves in the chain.
use seine.Prelude.{
  String, ◌≡◌, ◌≢◌, refl, sym, ◌∙◌, ap, inl, inr, true, false, Option, none, some, List, [], ◌∷◌,
  ◌++◌, arith, Bool-cases,
}
use mathlib.Core.List.{append_assoc, append-nil}
use seine.External.{Net}
use seine.NetPolicy.Compile.{Compiled}
use seine.NetPolicy.Firewall.{
  RuleSpec, IpTables, FirewallError, firewall_chain, clear, ensure_chain, ensure_forward_jump,
  append_rules, reconcile, build_rules, and_then, done,
}

-- How iptables lists a chain: `-F` empties it and `-A` adds a rule at its end.
pub record Listing (ipt : IpTables) : Type 0 where
  pub rules : String → String → ipt.State → List RuleSpec
  pub rules_of_clear :
      (table chain : String) (s : ipt.State)
      → (ipt.clear_chain table chain s).0 ≡ true
      → rules table chain (ipt.clear_chain table chain s).1 ≡ []
  pub rules_of_append :
      (table chain : String) (r : RuleSpec) (s : ipt.State)
      → (ipt.append table chain r s).0 ≡ true
      → rules table chain (ipt.append table chain r s).1 ≡ rules table chain s ++ r ∷ []

module _ (ipt : IpTables) (listing : Listing ipt) where
  open ipt use {State}

  abbrev pub installed : State → List RuleSpec
  installed s = listing.rules "filter" firewall_chain s

  appended_one :
      (r : RuleSpec) (rest : List RuleSpec) (s : State)
      → (ipt.append "filter" firewall_chain r s).0 ≡ true
      → append_rules ipt (r ∷ rest) s
        ≡ append_rules ipt rest (ipt.append "filter" firewall_chain r s).1
  unfolding append_rules
  appended_one r rest s p = rw (append_rules, p) refl

  stopped :
      (r : RuleSpec) (rest : List RuleSpec) (s : State)
      → (ipt.append "filter" firewall_chain r s).0 ≡ false
      → (append_rules ipt (r ∷ rest) s).0 ≢ none
  unfolding append_rules
  stopped r rest s p = rw (append_rules, p) (λ e. cc)

  append_rules-installed :
      (rs : List RuleSpec) (s : State)
      → (append_rules ipt rs s).0 ≡ none
      → installed (append_rules ipt rs s).1 ≡ installed s ++ rs
  unfolding append_rules
  append_rules-installed [] s h = sym (append-nil (installed s))
  append_rules-installed (r ∷ rest) s h =
      elim (Bool-cases (ipt.append "filter" firewall_chain r s).0) [
        | inl p ↦
            let next = (ipt.append "filter" firewall_chain r s).1 in
            let one = appended_one r rest s p in
            let ih = append_rules-installed rest next (rw one at h) in
            rw one (
              ih
              ∙ (ap (λ l. l ++ rest) (listing.rules_of_append "filter" firewall_chain r s p)
                  ∙ append_assoc (installed s) (r ∷ []) rest))
        | inr p ↦ absurd (stopped r rest s p h)
      ]

  -- A step that did not fail was followed by the next one.
  continues :
      (x : Option FirewallError × State) (next : State → Option FirewallError × State)
      → (and_then ipt x next).0 ≡ none
      → (x.0 ≡ none) × (and_then ipt x next ≡ next x.1)
  continues (none, s) next h = (refl, refl)
  continues (some e, s) next h = cc

  cleared :
      (s : State) (next : State → Option FirewallError × State)
      → (and_then ipt (done ipt clear (ipt.clear_chain "filter" firewall_chain s)) next).0 ≡ none
      → ((ipt.clear_chain "filter" firewall_chain s).0 ≡ true)
        × (and_then ipt (done ipt clear (ipt.clear_chain "filter" firewall_chain s)) next
            ≡ next (ipt.clear_chain "filter" firewall_chain s).1)
  cleared s next h = elim (Bool-cases (ipt.clear_chain "filter" firewall_chain s).0) [
    | inl p ↦ (p, rw p refl)
    | inr p ↦ absurd (ground arith)
  ]

  -- A reconciliation that returns no error leaves exactly the rules of the policy in the chain, in
  -- their order, whatever the chain held before.
  pub reconcile-installed :
      (net : Net) (iface : String) (c : Compiled net) (s : State)
      → (reconcile ipt net iface c s).0 ≡ none
      → installed (reconcile ipt net iface c s).1 ≡ build_rules net c
  unfolding reconcile
  reconcile-installed net iface c s h =
      let jumped = ensure_forward_jump ipt iface in
      let emptied = λ (s2 : State). done ipt clear (ipt.clear_chain "filter" firewall_chain s2) in
      let filled = append_rules ipt (build_rules net c) in
      let (a, e1) =
        continues (ensure_chain ipt s)
          (λ s1. and_then ipt (jumped s1) λ s2. and_then ipt (emptied s2) filled) h in
      let s1 = (ensure_chain ipt s).1 in
      let (b, e2) = continues (jumped s1) (λ s2. and_then ipt (emptied s2) filled) (rw e1 at h) in
      let s2 = (jumped s1).1 in
      let (emptied_ok, e3) = cleared s2 filled (rw e2 at rw e1 at h) in
      let s3 = (ipt.clear_chain "filter" firewall_chain s2).1 in
      let all : reconcile ipt net iface c s ≡ filled s3 = e1 ∙ (e2 ∙ e3) in
      let added =
        append_rules-installed (build_rules net c) s3
          (ap (λ (x : Option FirewallError × State). x.0) (sym all) ∙ h) in
      ap (λ (x : Option FirewallError × State). installed x.1) all
      ∙ (added
          ∙ ap (λ l. l ++ build_rules net c)
              (listing.rules_of_clear "filter" firewall_chain s2 emptied_ok))
