-- ===== src/Examples/Device.antt =====
-- The theorems on a device's peers and on the agent's key, with keys that are their texts.
use seine.Prelude.{
  ◌⊎◌, ◌≡◌, refl, sym, ap, ◌∙◌, ◌↔◌, inl, inr, true, false, none, some, ℕ, nat_beq, arith,
  Bool-cases, List, [], ◌∷◌, In, lookup,
}
use seine.Prelude.Int.{pos}
use seine.Prelude.Result.{ok}
use seine.External.{Keys}
use seine.Api.{PeerInfo, role_hub, role_spoke}
use seine.Spec.Lookup.{agents_for_hub}
use seine.Topology.{Self, by_name, peers_for}
use seine.Topology.Spokes.{Serves}
use seine.Topology.Hubs.{Meshes}
use seine.Topology.Peers.{peers_for_hub}
use seine.Wg.Types.{Peer}
use seine.Wg.Diff.{compute_diff}
use seine.Prelude.Sort.{codes}
use seine.Wg.Settings.{TextLaws}
use seine.Wg.Changes.{Differs, compute_diff_iff}
use seine.Wg.Keys.{content, not_exist, load_or_generate, with_newline}
use seine.Wg.Identity.{KeyLaws, Solid, load_or_generate_restart}
use seine.Examples.Sample.{
  Host, proper, prefix_text, overlay_string, laptop, server, host_eq, parse_host, host_string,
  sample_net, sample_doc, gateway,
}

-- A key is one of three hosts, and its text that host's.
abbrev pub sample_keys : Keys
sample_keys = record {
  Key = Host;
  key_eq = host_eq;
  parse_key = parse_host;
  key_string = host_string;
  public_key = λ k. k;
}

key_reads_back : (k : Host) → parse_host (host_string k) ≡ some k
key_reads_back Host.gateway = refl
key_reads_back laptop = refl
key_reads_back server = refl

text_has_no_space : (k : Host) → Solid (host_string k)
text_has_no_space Host.gateway = (refl, (refl, (refl, (refl, (refl, (refl, (refl, (refl, tt))))))))
text_has_no_space laptop = (refl, (refl, (refl, (refl, (refl, (refl, (refl, (refl, tt))))))))
text_has_no_space server = (refl, (refl, (refl, (refl, (refl, (refl, (refl, (refl, tt))))))))

sample_laws : KeyLaws sample_keys
sample_laws = record { solid = text_has_no_space; reads_back = key_reads_back }

abbrev pub peer : Host → Peer sample_net sample_keys
peer k = record {
  name = "";
  public_key = k;
  endpoint = none;
  allowed_ips = (k, 32) ∷ [];
  persistent_keepalive = pos 0;
}

host_codes : (h k : Host) → codes (host_string h) ≡ codes (host_string k) → h ≡ k
host_codes Host.gateway Host.gateway e = refl
host_codes Host.gateway laptop e = absurd (ground arith)
host_codes Host.gateway server e = absurd (ground arith)
host_codes laptop Host.gateway e = absurd (ground arith)
host_codes laptop laptop e = refl
host_codes laptop server e = absurd (ground arith)
host_codes server Host.gateway e = absurd (ground arith)
host_codes server laptop e = absurd (ground arith)
host_codes server server e = refl

host_or_overlay : (h : Host) → ¬ (codes (host_string h) ≡ codes overlay_string)
host_or_overlay Host.gateway = λ e. ground arith
host_or_overlay laptop = λ e. ground arith
host_or_overlay server = λ e. ground arith

overlay_only :
    (h : Host) (n : ℕ)
    → nat_beq n 32 ≡ false
    → proper (h, n) ≡ true
    → ◌≡◌ {A = Host × ℕ} (h, n) (Host.gateway, 24)
overlay_only Host.gateway n q v = let e : n ≡ 24 = ground arith in ap (λ m. (Host.gateway, m)) e
overlay_only laptop n q v = absurd (ground arith)
overlay_only server n q v = absurd (ground arith)

texts_apart :
    (p q : Host × ℕ)
    → proper p ≡ true
    → proper q ≡ true
    → codes (prefix_text p) ≡ codes (prefix_text q)
    → p ≡ q
texts_apart (h, n) (k, m) v w e = elim (Bool-cases (nat_beq n 32)) [
  | inl a ↦ elim (Bool-cases (nat_beq m 32)) [
    | inl b ↦
        let s : codes (host_string h) ≡ codes (host_string k) = rw (a, b) at e in
        let n' : n ≡ m = ground arith in λ i. (host_codes h k s i, n' i)
    | inr b ↦
        let s : codes (host_string h) ≡ codes overlay_string = rw (a, b) at e in
        absurd (host_or_overlay h s)
  ]
  | inr a ↦ elim (Bool-cases (nat_beq m 32)) [
    | inl b ↦
        let s : codes overlay_string ≡ codes (host_string k) = rw (a, b) at e in
        absurd (host_or_overlay k (sym s))
    | inr b ↦ overlay_only h n a v ∙ sym (overlay_only k m b w)
  ]
]

sample_texts : TextLaws sample_net
sample_texts = record { text_apart = texts_apart }

abbrev held : List (Host × Peer sample_net sample_keys)
held = (laptop, peer laptop) ∷ []

abbrev wanted : List (Peer sample_net sample_keys)
wanted = record (peer laptop) { persistent_keepalive = pos 25 } ∷ peer server ∷ []

compute_diff_iff_example :
    ((p : Peer sample_net sample_keys)
      → In p (compute_diff sample_net sample_keys held wanted).added
        ↔ (In p wanted × (lookup host_eq p.public_key held ≡ none)))
    × ((p : Peer sample_net sample_keys)
        → In p (compute_diff sample_net sample_keys held wanted).updated
          ↔ (In p wanted × Differs sample_net sample_keys held p))
    × ((k : Host)
        → In k (compute_diff sample_net sample_keys held wanted).removed
          ↔ (In k (laptop ∷ []) × ¬ In k (laptop ∷ server ∷ [])))
compute_diff_iff_example =
    compute_diff_iff sample_net sample_keys held wanted sample_texts ((refl, tt), tt)

first_start :
    load_or_generate sample_keys not_exist (some laptop) true true
    ≡ (ok (record { private = laptop; public = laptop }), some "10.0.0.2\n")
unfolding load_or_generate with_newline
first_start = refl

load_or_generate_restart_example :
    load_or_generate sample_keys (content "10.0.0.2\n") (some server) true true
    ≡ (ok (record { private = laptop; public = laptop }), none)
load_or_generate_restart_example =
    load_or_generate_restart sample_keys sample_laws (some laptop) (some server) true true true true
      (record { private = laptop; public = laptop }) "10.0.0.2\n" first_start

abbrev pub gateway_self : Self sample_net
gateway_self = record { name = "gw"; role = role_hub; tunnel_ip = gateway; hub_name = "" }

abbrev pub laptop_info : PeerInfo
laptop_info = record {
  name = "laptop";
  public_key = "10.0.0.2";
  endpoint = "";
  tunnel_ip = "10.0.0.2";
  last_seen = record { unix = pos 5; nanos = 0 };
  role = role_spoke;
}

abbrev pub laptop_peer : Peer sample_net sample_keys
laptop_peer = record (peer laptop) { name = "laptop" }

pub gateway_peers :
    peers_for sample_net sample_keys sample_doc gateway_self (some laptop_info ∷ []) (pos 0)
    ≡ ok (laptop_peer ∷ [])
unfolding peers_for
gateway_peers = refl

peers_for_hub_example : In laptop_peer (laptop_peer ∷ []) ↔ (
    Meshes sample_net sample_keys
      (by_name [] (some laptop_info ∷ []))
      sample_doc
      "gw"
      (pos 0)
      sample_doc.spec.hubs
      laptop_peer
    ⊎ Serves sample_net sample_keys
        (by_name [] (some laptop_info ∷ []))
        (agents_for_hub sample_doc "gw")
        laptop_peer)
peers_for_hub_example =
    peers_for_hub sample_net sample_keys sample_doc gateway_self (some laptop_info ∷ []) (pos 0)
      (laptop_peer ∷ []) laptop_peer refl gateway_peers
