-- ===== src/Store/Tokens.antt =====
-- internal/store/store.go: what the lookups return after a registration.
use seine.Prelude.{
  ◌∙◌, eq_refl, String, ◌≡◌, ◌≢◌, refl, sym, ap, Bool, true, false, Option, none, some, List, [],
  ◌∷◌, ◌==◌, inl, inr, arith, eq_iff, Bool-cases, In, Distinct, if◌then◌else◌, list_beq_iff, nat_eq,
}
use seine.Prelude.Int.{ℤ}
use seine.Prelude.Result.{Result, ok, err}
use seine.Store.{
  Row, Table, Agent, StoreError, Digest, digest_beq, not_found, proposed, replace_row, write_row,
  query_row, scan_agent, scan_row, upsert_agent, get_agent_by_name, authenticate_by_token_hash,
}
use seine.Store.Registry.{row_names, IsRegistry}

abbrev pub row_hashes : Table → List Digest
row_hashes [] = []
row_hashes (r ∷ rest) = r.auth_token_hash ∷ row_hashes rest

abbrev by_name : String → Row → Bool
by_name n r = r.name == n

abbrev by_hash : Digest → Row → Bool
by_hash d r = digest_beq r.auth_token_hash d

-- The row that stands for an agent after the `INSERT`.
abbrev merged : Row → Option Row → Row
merged new none = new
merged new (some old) = replace_row new old

digest_iff : (d e : Digest) → (digest_beq d e ≡ true → d ≡ e) × (d ≡ e → digest_beq d e ≡ true)
digest_iff d e = list_beq_iff nat_eq d e

query_name-write :
    (new : Row) (t : Table) (n : String)
    → query_row (by_name n) (write_row new t) ≡ (
        if new.name == n
        then some (merged new (query_row (by_name new.name) t))
        else query_row (by_name n) t)
unfolding query_row write_row replace_row
query_name-write new [] n = refl
query_name-write new (r ∷ rest) n =
    ground (
      arith,
      eq_iff r.name new.name,
      eq_iff r.name n,
      eq_iff new.name n,
      query_name-write new rest n,
    )

query_fresh : (d : Digest) (t : Table) → ¬ In d (row_hashes t) → query_row (by_hash d) t ≡ none
unfolding query_row
query_fresh d [] h = refl
query_fresh d (r ∷ rest) h = elim (Bool-cases (digest_beq r.auth_token_hash d)) [
  | inl p ↦ absurd (h (inl (sym ((digest_iff r.auth_token_hash d).0 p))))
  | inr p ↦ rw p (query_fresh d rest (λ m. h (inr m)))
]

query_name_In :
    (test : Row → Bool) (t : Table) (r : Row) → query_row test t ≡ some r → In r.name (row_names t)
unfolding query_row
query_name_In test [] r h = cc
query_name_In test (x ∷ rest) r h = elim (Bool-cases (test x)) [
  | inl p ↦ let e : some x ≡ some r = rw p at h in inl (ground arith)
  | inr p ↦ let e : query_row test rest ≡ some r = rw p at h in inr (query_name_In test rest r e)
]

-- No row for the agent whose name is `name`.
abbrev revoke_row : String → Option Row → Option Row
revoke_row name none = none
revoke_row name (some r) = if r.name == name then none else some r

revoke_absent :
    (name : String) (o : Option Row)
    → ((r : Row) → o ≡ some r → r.name ≢ name)
    → revoke_row name o ≡ o
revoke_absent name none h = refl
revoke_absent name (some r) h = ground (arith, h r, eq_iff r.name name)

query_hash-write :
    (new : Row) (t : Table) (d : Digest)
    → new.auth_token_hash ≢ d
    → Distinct (row_names t)
    → Distinct (row_hashes t)
    → query_row (by_hash d) (write_row new t) ≡ revoke_row new.name (query_row (by_hash d) t)
unfolding query_row write_row replace_row
query_hash-write new [] d ne names hashes = ground (arith, digest_iff new.auth_token_hash d)
query_hash-write new (r ∷ rest) d ne names hashes = elim (Bool-cases (r.name == new.name)) [
  | inl p ↦
      let same : r.name ≡ new.name = (eq_iff r.name new.name).0 p in
      let others =
        revoke_absent new.name (query_row (by_hash d) rest)
          (λ x e s. names.0 (rw (same, ← s) (query_name_In (by_hash d) rest x e))) in
      elim (Bool-cases (digest_beq r.auth_token_hash d)) [
        | inl q ↦
            let gone = query_fresh d rest (rw (← (digest_iff r.auth_token_hash d).0 q) hashes.0) in
            ground (arith, digest_iff new.auth_token_hash d)
        | inr q ↦ ground (arith, digest_iff new.auth_token_hash d)
      ]
  | inr p ↦
      ground
        (arith, digest_iff r.auth_token_hash d, query_hash-write new rest d ne names.1 hashes.1)
]

query_hash-write_self :
    (new : Row) (t : Table)
    → ¬ In new.auth_token_hash (row_hashes t)
    → query_row (by_hash new.auth_token_hash) (write_row new t)
      ≡ query_row (by_name new.name) (write_row new t)
unfolding query_row write_row replace_row
query_hash-write_self new [] fresh =
    ground (arith, digest_iff new.auth_token_hash new.auth_token_hash, eq_iff new.name new.name)
query_hash-write_self new (r ∷ rest) fresh =
    let ih = query_hash-write_self new rest (λ m. fresh (inr m)) in
    let other : r.auth_token_hash ≢ new.auth_token_hash = λ e. fresh (inl (sym e)) in
    elim (Bool-cases (r.name == new.name)) [
      | inl p ↦ rw p (rw p ((ground (arith, digest_iff new.auth_token_hash new.auth_token_hash))))
      | inr p ↦ ground (arith, digest_iff r.auth_token_hash new.auth_token_hash)
    ]

upsert_agent-written :
    (now : ℤ) (a : Agent) (t : Table)
    → (upsert_agent false now a t).0 ≡ none
    → (upsert_agent false now a t).1 ≡ write_row (proposed now a) t
unfolding upsert_agent
upsert_agent-written now a t h = ground arith

-- The creation time that a registration under this name keeps.
abbrev pub kept_creation : Agent → Result StoreError Agent → Agent
kept_creation new (err e) = new
kept_creation new (ok old) = record new { created_at = old.created_at }

abbrev pub reread : ℤ → Agent → Agent
reread now a = scan_agent (proposed now a)

query_row_passes :
    (test : Row → Bool) (t : Table) (r : Row) → query_row test t ≡ some r → test r ≡ true
unfolding query_row
query_row_passes test [] r h = cc
query_row_passes test (x ∷ rest) r h = elim (Bool-cases (test x)) [
  | inl p ↦ let e : some x ≡ some r = rw p at h in let same : x ≡ r = ground arith in rw same at p
  | inr p ↦ query_row_passes test rest r (rw p at h)
]

rereads :
    (now : ℤ) (a : Agent) (o : Option Row)
    → ((r : Row) → o ≡ some r → r.name ≡ a.name)
    → scan_row (some (merged (proposed now a) o)) ≡ ok (kept_creation (reread now a) (scan_row o))
unfolding scan_agent proposed replace_row
rereads now a none same = refl
rereads now a (some old) same = rw (same old refl) refl

-- After a registration that succeeded, the name reads back as what was written, with the creation
-- time of the name's earlier registration if there was one; every other name reads as before.
pub get_agent_by_name-upsert_agent :
    (now : ℤ) (a : Agent) (t : Table) (n : String)
    → (upsert_agent false now a t).0 ≡ none
    → get_agent_by_name false n (upsert_agent false now a t).1 ≡ (
        if a.name == n
        then ok (kept_creation (reread now a) (get_agent_by_name false a.name t))
        else get_agent_by_name false n t)
get_agent_by_name-upsert_agent now a t n h = rw (upsert_agent-written now a t h) (
    unfold get_agent_by_name proposed in
    rw (query_name-write (proposed now a) t n) (elim (Bool-cases (a.name == n)) [
      | inl p ↦ rw p (
          rereads now a (query_row (by_name a.name) t)
            (λ r e. (eq_iff r.name a.name).0 (query_row_passes (by_name a.name) t r e)))
      | inr p ↦ rw p refl
    ]))

-- A digest that stood in no row authenticates, after the registration that brings it, as the agent
-- that the registered name reads as.
pub authenticate-upsert_agent_self :
    (now : ℤ) (a : Agent) (t : Table)
    → (upsert_agent false now a t).0 ≡ none
    → ¬ In a.auth_token_hash (row_hashes t)
    → authenticate_by_token_hash false a.auth_token_hash (upsert_agent false now a t).1
      ≡ get_agent_by_name false a.name (upsert_agent false now a t).1
authenticate-upsert_agent_self now a t h fresh = rw (upsert_agent-written now a t h) (
    unfold authenticate_by_token_hash get_agent_by_name proposed in
    ap scan_row (query_hash-write_self (proposed now a) t fresh))

kept_identity :
    (new : Agent) (o : Result StoreError Agent)
    → ((kept_creation new o).name ≡ new.name)
      × ((kept_creation new o).public_key ≡ new.public_key)
      × ((kept_creation new o).endpoint ≡ new.endpoint)
kept_identity new (err e) = (refl, refl, refl)
kept_identity new (ok old) = (refl, refl, refl)

reread_identity :
    (now : ℤ) (a : Agent)
    → ((reread now a).name ≡ a.name)
      × ((reread now a).public_key ≡ a.public_key)
      × ((reread now a).endpoint ≡ a.endpoint)
unfolding scan_agent proposed
reread_identity now a = (refl, refl, refl)

-- The agent that a fresh digest authenticates as has the name, the key and the endpoint that were
-- registered.
pub registered :
    (fault : Bool) (now : ℤ) (a : Agent) (t : Table)
    → (upsert_agent fault now a t).0 ≡ none
    → ¬ In a.auth_token_hash (row_hashes t)
    → (found : Agent) × (authenticate_by_token_hash false a.auth_token_hash
          (upsert_agent fault now a t).1
        ≡ ok found)
      × (found.name ≡ a.name)
      × (found.public_key ≡ a.public_key)
      × (found.endpoint ≡ a.endpoint)
registered true now a t h fresh = absurd (unfold upsert_agent in ground arith)
registered false now a t h fresh =
    let kept = kept_creation (reread now a) (get_agent_by_name false a.name t) in
    let same = kept_identity (reread now a) (get_agent_by_name false a.name t) in
    let read = reread_identity now a in
    (
      kept,
      authenticate-upsert_agent_self now a t h fresh
          ∙ (get_agent_by_name-upsert_agent now a t a.name h ∙ rw (eq_refl a.name) refl),
      same.0 ∙ read.0,
      same.1 ∙ read.1,
      same.2 ∙ read.2,
    )

-- No agent, if it bears the name; what is found, if it bears another.
abbrev pub revoked : String → Result StoreError Agent → Result StoreError Agent
revoked name (err e) = err e
revoked name (ok a) = if a.name == name then err not_found else ok a

revokes :
    (name : String) (o : Option Row) → scan_row (revoke_row name o) ≡ revoked name (scan_row o)
unfolding scan_agent
revokes name none = refl
revokes name (some r) = ground arith

-- In a table where names and digests are unique, a registration that succeeded takes every older
-- digest away from its name, and leaves those of all other names: the earlier token is invalid.
pub authenticate-upsert_agent_ne :
    (now : ℤ) (a : Agent) (t : Table) (d : Digest)
    → (upsert_agent false now a t).0 ≡ none
    → IsRegistry t
    → Distinct (row_hashes t)
    → a.auth_token_hash ≢ d
    → authenticate_by_token_hash false d (upsert_agent false now a t).1
      ≡ revoked a.name (authenticate_by_token_hash false d t)
authenticate-upsert_agent_ne now a t d h valid hashes ne = rw (upsert_agent-written now a t h) (
    unfold authenticate_by_token_hash proposed in
    rw (query_hash-write (proposed now a) t d ne valid.names hashes)
      (revokes a.name (query_row (by_hash d) t)))
