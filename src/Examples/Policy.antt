-- ===== src/Examples/Policy.antt =====
-- The policy's theorems at the sample network.
use seine.Prelude.{◌≡◌, refl, ◌⊎◌, ◌↔◌, true, some, [], ◌∷◌, In}
use seine.Prelude.Result.{ok}
use seine.NetPolicy.Compile.{Compiled, Members, compile, group_members, expand}
use seine.NetPolicy.Firewall.{build_rules}
use seine.NetPolicy.Chain.{walk, walk-build_rules}
use seine.NetPolicy.Groups.{Belongs, group_members_iff}
use seine.NetPolicy.Flows.{Stems, expand_iff}
use seine.NetPolicy.Policy.{Permits, compile-enforces}
use seine.Examples.Sample.{
  gateway, laptop, server, sample_net, sample_match, sample_doc, office, database,
}

abbrev sample_compiled : Compiled sample_net
sample_compiled = record {
  allows = record { source = laptop; dest = server; allow = true } ∷ [];
  denies = [];
  hub_ips = gateway ∷ [];
  overlay = (gateway, 24);
}

sample_compiles : compile sample_net (some sample_doc) ≡ ok sample_compiled
unfolding compile
sample_compiles = refl

compile-enforces_example :
    Permits sample_net sample_doc laptop server
      × (walk sample_net sample_match (build_rules sample_net sample_compiled) laptop server
          ≡ some "ACCEPT")
    ⊎ (¬ Permits sample_net sample_doc laptop server)
      × (walk sample_net sample_match (build_rules sample_net sample_compiled) laptop server
          ≡ some "DROP")
compile-enforces_example =
    compile-enforces sample_net sample_match sample_doc sample_compiled laptop server
      sample_compiles refl refl

walk-build_rules_example :
    walk sample_net sample_match (build_rules sample_net sample_compiled) server laptop
    ≡ some "DROP"
walk-build_rules_example = walk-build_rules sample_net sample_match sample_compiled server laptop

abbrev sample_members : Members sample_net
sample_members = ("servers", server ∷ []) ∷ ("staff", laptop ∷ []) ∷ []

sample_groups : group_members sample_net [] (office ∷ database ∷ []) ≡ ok sample_members
unfolding group_members
sample_groups = refl

group_members_iff_example :
    In server (server ∷ []) ↔ Belongs sample_net server "servers" (office ∷ database ∷ [])
group_members_iff_example =
    group_members_iff sample_net (office ∷ database ∷ []) sample_members server "servers"
      sample_groups

expand_iff_example :
    In (laptop, server) (expand sample_net sample_members sample_doc.spec.acls).seen_allow
    ↔ Stems sample_net true laptop server sample_members sample_doc.spec.acls
expand_iff_example = expand_iff sample_net true laptop server sample_members sample_doc.spec.acls
