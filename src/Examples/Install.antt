-- ===== src/Examples/Install.antt =====
-- `Reconcile` against tables that hold the rules of one chain.
use seine.Prelude.{◌≡◌, refl, true, none, some, List, [], ◌∷◌, ◌++◌}
use seine.NetPolicy.Compile.{Compiled}
use seine.NetPolicy.Firewall.{RuleSpec, IpTables, reconcile, build_rules}
use seine.NetPolicy.Install.{Listing, installed, reconcile-installed}
use seine.Examples.Sample.{gateway, laptop, server, sample_net}

abbrev pub sample_tables : IpTables
sample_tables = record {
  State = List RuleSpec;
  chain_exists = λ t c s. some true;
  new_chain = λ t c s. (true, s);
  exists = λ t c r s. some true;
  insert = λ t c n r s. (true, s);
  clear_chain = λ t c s. (true, []);
  append = λ t c r s. (true, s ++ r ∷ []);
  delete = λ t c r s. (true, s);
  delete_chain = λ t c s. (true, s);
}

abbrev pub sample_listing : Listing sample_tables
sample_listing = record {
  rules = λ t c s. s;
  rules_of_clear = λ t c s p. refl;
  rules_of_append = λ t c r s p. refl;
}

abbrev policy : Compiled sample_net
policy = record {
  allows = record { source = laptop; dest = server; allow = true } ∷ [];
  denies = [];
  hub_ips = gateway ∷ [];
  overlay = (gateway, 24);
}

abbrev stale_rules : List RuleSpec
stale_rules = ("-j" ∷ "ACCEPT" ∷ []) ∷ []

reconciles : (reconcile sample_tables sample_net "seine0" policy stale_rules).0 ≡ none
unfolding reconcile
reconciles = refl

reconcile-installed_example :
    installed sample_tables sample_listing
      (reconcile sample_tables sample_net "seine0" policy stale_rules).1
    ≡ build_rules sample_net policy
reconcile-installed_example =
    reconcile-installed sample_tables sample_listing sample_net "seine0" policy stale_rules
      reconciles
