-- ===== src/Topology/Entries.antt =====
-- internal/spec: the hubs and agents of a well-formed document are told apart by name and by address.
use seine.Prelude.{
  String, ◌≡◌, ◌≢◌, sym, ◌∙◌, ap, inl, inr, some, List, [], ◌∷◌, ◌++◌, map, In, Distinct,
  In-append_left, In-append_right, eq_iff, Bool-cases, ◌==◌,
}
use seine.External.{Net}
use seine.Spec.Types.{Hub, Agent}
use seine.Spec.Lookup.{anchored}
use seine.Spec.Validate.Entries.{Entry, entry_names, hub_entries, agent_entries}

pub In-hub_entries : (h : Hub) (hs : List Hub) → In h hs → In (h.name, h.tunnel_ip) (hub_entries hs)
In-hub_entries h [] m = absurd m
In-hub_entries h (x ∷ hs) (inl e) = inl (ap (λ (y : Hub). (y.name, y.tunnel_ip)) e)
In-hub_entries h (x ∷ hs) (inr m) = inr (In-hub_entries h hs m)

pub In-agent_entries :
    (a : Agent) (rest : List Agent) → In a rest → In (a.name, a.tunnel_ip) (agent_entries rest)
In-agent_entries a [] m = absurd m
In-agent_entries a (x ∷ rest) (inl e) = inl (ap (λ (y : Agent). (y.name, y.tunnel_ip)) e)
In-agent_entries a (x ∷ rest) (inr m) = inr (In-agent_entries a rest m)

In-entry_names : (e : Entry) (es : List Entry) → In e es → In (e.0) (entry_names es)
In-entry_names e [] m = absurd m
In-entry_names e ((n, r) ∷ es) (inl p) = inl (ap (λ (y : Entry). y.0) p)
In-entry_names e ((n, r) ∷ es) (inr m) = inr (In-entry_names e es m)

-- A hub and an agent have different names.
pub names_apart :
    (e f : Entry) (xs ys : List Entry)
    → Distinct (entry_names (xs ++ ys))
    → In e xs
    → In f ys
    → e.0 ≢ f.0
names_apart e f [] ys d m k = absurd m
names_apart e f ((n, r) ∷ xs) ys d (inl p) k = λ same.
    let first : n ≡ f.0 = sym (ap (λ (y : Entry). y.0) p) ∙ same in
    d.0 (rw first (In-entry_names f (xs ++ ys) (In-append_right f xs ys k)))
names_apart e f ((n, r) ∷ xs) ys d (inr m) k = names_apart e f xs ys d.1 m k

pub names_of_right :
    (xs ys : List Entry) → Distinct (entry_names (xs ++ ys)) → Distinct (entry_names ys)
names_of_right [] ys d = d
names_of_right ((n, r) ∷ xs) ys d = names_of_right xs ys d.1

-- Hubs with one name are one hub.
pub hub_of_name :
    (a b : Hub) (hubs : List Hub) (ys : List Entry)
    → Distinct (entry_names (hub_entries hubs ++ ys))
    → In a hubs
    → In b hubs
    → a.name ≡ b.name
    → a ≡ b
hub_of_name a b [] ys d m k e = absurd m
hub_of_name a b (x ∷ hubs) ys d (inl p) (inl q) e = p ∙ sym q
hub_of_name a b (x ∷ hubs) ys d (inl p) (inr k) e =
    let same : x.name ≡ b.name = ap (λ (y : Hub). y.name) (sym p) ∙ e in
    let l = In-append_left (b.name, b.tunnel_ip) (hub_entries hubs) ys (In-hub_entries b hubs k) in
    absurd (d.0 (rw same (In-entry_names (b.name, b.tunnel_ip) (hub_entries hubs ++ ys) l)))
hub_of_name a b (x ∷ hubs) ys d (inr m) (inl q) e =
    let same : x.name ≡ a.name = ap (λ (y : Hub). y.name) (sym q) ∙ sym e in
    let l = In-append_left (a.name, a.tunnel_ip) (hub_entries hubs) ys (In-hub_entries a hubs m) in
    absurd (d.0 (rw same (In-entry_names (a.name, a.tunnel_ip) (hub_entries hubs ++ ys) l)))
hub_of_name a b (x ∷ hubs) ys d (inr m) (inr k) e = hub_of_name a b hubs ys d.1 m k e

-- Agents with one name are one agent.
pub agent_of_name :
    (a b : Agent) (rest : List Agent)
    → Distinct (entry_names (agent_entries rest))
    → In a rest
    → In b rest
    → a.name ≡ b.name
    → a ≡ b
agent_of_name a b [] d m k e = absurd m
agent_of_name a b (x ∷ rest) d (inl p) (inl q) e = p ∙ sym q
agent_of_name a b (x ∷ rest) d (inl p) (inr k) e =
    let same : x.name ≡ b.name = ap (λ (y : Agent). y.name) (sym p) ∙ e in
    absurd (
      d.0 (
        rw same
          (In-entry_names (b.name, b.tunnel_ip) (agent_entries rest) (In-agent_entries b rest k))))
agent_of_name a b (x ∷ rest) d (inr m) (inl q) e =
    let same : x.name ≡ a.name = ap (λ (y : Agent). y.name) (sym q) ∙ sym e in
    absurd (
      d.0 (
        rw same
          (In-entry_names (a.name, a.tunnel_ip) (agent_entries rest) (In-agent_entries a rest m))))
agent_of_name a b (x ∷ rest) d (inr m) (inr k) e = agent_of_name a b rest d.1 m k e

-- `AgentsForHub` returns agents of the list that name the hub.
pub In_of_anchored :
    (a : Agent) (hub : String) (rest : List Agent)
    → In a (anchored hub rest)
    → In a rest × (a.hub ≡ hub)
unfolding anchored
In_of_anchored a hub [] m = absurd m
In_of_anchored a hub (x ∷ rest) m = elim (Bool-cases (x.hub == hub)) [
  | inr b ↦ let (k, e) = In_of_anchored a hub rest (rw (anchored, b) at m) in (inr k, e)
  | inl b ↦
      let m' : In a (x ∷ anchored hub rest) = rw (anchored, b) at m in
      elim m' [
        | inl p ↦ (inl p, ap (λ (y : Agent). y.hub) p ∙ (eq_iff x.hub hub).0 b)
        | inr k ↦ let (l, e) = In_of_anchored a hub rest k in (inr l, e)
      ]
]

module _ (net : Net) where
  open net use {Addr, parse_addr}

  pub addr_listed :
      (f : Entry) (a : Addr) (es : List Entry) (addrs : List Addr)
      → map (λ (e : Entry). parse_addr e.1) es ≡ map some addrs
      → In f es
      → parse_addr f.1 ≡ some a
      → In a addrs
  addr_listed f a [] addrs h m p = absurd m
  addr_listed f a (x ∷ es) [] h m p = absurd (cc)
  addr_listed f a (x ∷ es) (y ∷ addrs) h (inl q) p =
      let first : parse_addr x.1 ≡ some y = cc in
      let found : parse_addr x.1 ≡ some a = ap (λ (e : Entry). parse_addr e.1) (sym q) ∙ p in
      inl (cc)
  addr_listed f a (x ∷ es) (y ∷ addrs) h (inr m) p =
      let others : map (λ (e : Entry). parse_addr e.1) es ≡ map some addrs = cc in
      inr (addr_listed f a es addrs others m p)

  -- Entries with one address are one entry.
  pub entry_of_addr :
      (e f : Entry) (a : Addr) (es : List Entry) (addrs : List Addr)
      → map (λ (e : Entry). parse_addr e.1) es ≡ map some addrs
      → Distinct addrs
      → In e es
      → In f es
      → parse_addr e.1 ≡ some a
      → parse_addr f.1 ≡ some a
      → e ≡ f
  entry_of_addr e f a [] addrs h d m k p q = absurd m
  entry_of_addr e f a (x ∷ es) [] h d m k p q = absurd (cc)
  entry_of_addr e f a (x ∷ es) (y ∷ addrs) h d (inl m) (inl k) p q = m ∙ sym k
  entry_of_addr e f a (x ∷ es) (y ∷ addrs) h d (inl m) (inr k) p q =
      let others : map (λ (e : Entry). parse_addr e.1) es ≡ map some addrs = cc in
      let first : parse_addr x.1 ≡ some y = cc in
      let found : parse_addr x.1 ≡ some a = ap (λ (e : Entry). parse_addr e.1) (sym m) ∙ p in
      let same : y ≡ a = cc in absurd (d.0 (rw same (addr_listed f a es addrs others k q)))
  entry_of_addr e f a (x ∷ es) (y ∷ addrs) h d (inr m) (inl k) p q =
      let others : map (λ (e : Entry). parse_addr e.1) es ≡ map some addrs = cc in
      let first : parse_addr x.1 ≡ some y = cc in
      let found : parse_addr x.1 ≡ some a = ap (λ (e : Entry). parse_addr e.1) (sym k) ∙ q in
      let same : y ≡ a = cc in absurd (d.0 (rw same (addr_listed e a es addrs others m p)))
  entry_of_addr e f a (x ∷ es) (y ∷ addrs) h d (inr m) (inr k) p q =
      let others : map (λ (e : Entry). parse_addr e.1) es ≡ map some addrs = cc in
      entry_of_addr e f a es addrs others d.1 m k p q
