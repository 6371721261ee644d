-- ===== src/ControlPlane/Access.antt =====
-- internal/controlplane/auth.go: the interceptor lets nothing through without a token.
use seine.Prelude.{
  String, ◌≡◌, refl, ◌⊎◌, inl, inr, Bool, true, false, Option, none, some, List, [], ◌∷◌, arith, In,
  Bool-cases, member, string_eq, member→In, In→member,
}
use seine.Prelude.Result.{Result, ok, err, Result-cases}
use seine.Store
use seine.Store.{
  Table, Digest, StoreError, authenticate_by_token_hash, not_found, driver, constraint,
}
use seine.ControlPlane.Auth.{
  Code, Metadata, auth_interceptor, token_from_metadata, unauthenticated, internal, lookup_code,
  other_header, first_header,
}

-- What the interceptor does with a call: the agent that it puts in the handler's context, or the
-- status that it returns instead.
pub data Decision : Type 0 where
  passed : Option Store.Agent → Decision
  refused : Code → Decision

-- The metadata carries a token whose digest is the agent's.
pub record Bears (hash_token : String → Digest) (fault : Bool) (t : Table) (md : Metadata)
    (agent : Store.Agent) : Type 0 where
  pub token : String
  pub carried : token_from_metadata md ≡ ok token
  pub known : authenticate_by_token_hash fault (hash_token token) t ≡ ok agent

other_header-code :
    (vals : List String) (c : Code) → other_header vals ≡ err c → c ≡ unauthenticated
other_header-code [] c h = cc
other_header-code (v ∷ vals) c h = cc

first_header-code :
    (vals others : List String) (c : Code) → first_header vals others ≡ err c → c ≡ unauthenticated
first_header-code [] others c h = other_header-code others c h
first_header-code (v ∷ vals) others c h = ground (arith, other_header-code others c)

token_from_metadata-code :
    (md : Metadata) (c : Code) → token_from_metadata md ≡ err c → c ≡ unauthenticated
unfolding token_from_metadata
token_from_metadata-code none c h = cc
token_from_metadata-code (some get) c h =
    first_header-code (get "authorization") (get "x-seine-token") c h

authenticate-code :
    (fault : Bool) (d : Digest) (t : Table) (e : StoreError)
    → authenticate_by_token_hash fault d t ≡ err e
    → (lookup_code e ≡ unauthenticated) ⊎ ((lookup_code e ≡ internal) × (fault ≡ true))
unfolding authenticate_by_token_hash
authenticate-code true d t e h = ground arith
authenticate-code false d t e h = ground arith

module _ (hash_token : String → Digest) (fault : Bool) (t : Table) (skip : List String)
    (full_method : String) (md : Metadata) where
  abbrev pub decide : Decision
  decide = auth_interceptor hash_token fault t skip full_method md passed refused

  looked_up : String → Result StoreError Store.Agent
  looked_up token = authenticate_by_token_hash fault (hash_token token) t

  skipped : member string_eq full_method skip ≡ true → decide ≡ passed none
  unfolding auth_interceptor
  skipped p = rw p refl

  -- What the interceptor does with a method that is not skipped, by its two steps.
  tokenless :
      (c : Code)
      → member string_eq full_method skip ≡ false
      → token_from_metadata md ≡ err c
      → decide ≡ refused c
  unfolding auth_interceptor
  tokenless c p q = rw (p, q) refl

  bearing :
      (token : String) (agent : Store.Agent)
      → member string_eq full_method skip ≡ false
      → token_from_metadata md ≡ ok token
      → looked_up token ≡ ok agent
      → decide ≡ passed (some agent)
  unfolding auth_interceptor looked_up
  bearing token agent p q r = rw (p, q, r) refl

  unknown :
      (token : String) (e : StoreError)
      → member string_eq full_method skip ≡ false
      → token_from_metadata md ≡ ok token
      → looked_up token ≡ err e
      → decide ≡ refused (lookup_code e)
  unfolding auth_interceptor looked_up
  unknown token e p q r = rw (p, q, r) refl

  -- The four ways in which a call can go.
  data Course : Type 0 where
    skips : In full_method skip → decide ≡ passed none → Course
    bears :
        (¬ In full_method skip)
        → (agent : Store.Agent) → Bears hash_token fault t md agent
        → decide ≡ passed (some agent)
        → Course
    lacks : (c : Code) → token_from_metadata md ≡ err c → decide ≡ refused c → Course
    fails :
        (token : String) (e : StoreError)
        → token_from_metadata md ≡ ok token
        → looked_up token ≡ err e
        → decide ≡ refused (lookup_code e)
        → Course

  course : Course
  course = elim (Bool-cases (member string_eq full_method skip)) [
    | inl p ↦ skips (member→In string_eq full_method skip p) (skipped p)
    | inr p ↦ elim (Result-cases (token_from_metadata md)) [
      | inl (c, q) ↦ lacks c q (tokenless c p q)
      | inr (token, q) ↦ elim (Result-cases (looked_up token)) [
        | inl (e, r) ↦ fails token e q r (unknown token e p q r)
        | inr (agent, r) ↦
            bears (λ m. let hit = In→member string_eq full_method skip m in cc) agent
              (record { token = token; carried = q; known = unfold looked_up in r })
              (bearing token agent p q r)
      ]
    ]
  ]

  refuses :
      (c : Code)
      → Course
      → decide ≡ refused c
      → (c ≡ unauthenticated) ⊎ ((c ≡ internal) × (fault ≡ true))
  unfolding looked_up
  refuses c (skips m d) h = cc
  refuses c (bears no_skip agent b d) h = cc
  refuses c (lacks e q d) h = ground (arith, token_from_metadata-code md e)
  refuses c (fails token e q r d) h = ground (arith, authenticate-code fault (hash_token token) t e)

  -- A call that does not reach the handler ends with `Unauthenticated`, or with `Internal` after a
  -- fault of the store.
  pub auth_interceptor_refuses :
      (c : Code) → decide ≡ refused c → (c ≡ unauthenticated) ⊎ ((c ≡ internal) × (fault ≡ true))
  auth_interceptor_refuses c h = refuses c course h
