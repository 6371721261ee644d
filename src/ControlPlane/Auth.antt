-- ===== src/ControlPlane/Auth.antt =====
-- internal/controlplane/auth.go: bearer authentication of every call that is not skipped.
use seine.Prelude.{
  ℕ, String, Bool, Option, none, some, List, [], ◌∷◌, ◌==◌, if◌then◌else◌, member, string_eq,
}
use seine.Prelude.Result.{Result, ok, err}
use seine.Prelude.Sort.{codes}
use seine.Prelude.Text.{trim_space, after_prefix}
use seine.Store
use seine.Store.{
  Table, Digest, StoreError, authenticate_by_token_hash, not_found, driver, constraint,
}

-- The status codes of google.golang.org/grpc/codes that the server returns.
pub data Code : Type 0 where
  invalid_argument unauthenticated permission_denied unavailable internal : Code

-- The request's metadata by lower-case key; `none` where there is none.
abbrev pub Metadata : Type 0
Metadata = Option (String → List String)

abbrev bearer : List ℕ
bearer = codes "bearer "

-- What follows "bearer " in a value that is longer than it.
unfoldable pub bearer_token : String → Option String
unfolding after_prefix
bearer_token v = elim (after_prefix bearer v) [
  | none ↦ none
  | some rest ↦ if rest == "" then none else some rest
]

-- the second header, and the error
abbrev pub other_header : List String → Result Code String
other_header [] = err unauthenticated
other_header (v ∷ vals) = ok (trim_space v)

abbrev pub first_header : List String → List String → Result Code String
first_header [] others = other_header others
first_header (v ∷ vals) others = elim (bearer_token v) [
  | some token ↦ ok (trim_space token)
  | none ↦ other_header others
]

unfoldable pub token_from_metadata : Metadata → Result Code String
unfolding trim_space bearer_token
token_from_metadata none = err unauthenticated
token_from_metadata (some get) = first_header (get "authorization") (get "x-seine-token")

abbrev pub constant_time_equal : String → String → Bool
constant_time_equal a b = a == b

-- the errors of the lookup
abbrev pub lookup_code : StoreError → Code
lookup_code not_found = unauthenticated
lookup_code driver = internal
lookup_code constraint = internal

-- `handler` takes the agent of its context. The digest function is SHA-256.
module _ {R : Type 0} (hash_token : String → Digest) where
  abbrev attach : (Option Store.Agent → R) → (Code → R) → Result StoreError Store.Agent → R
  attach handler refuse (ok agent) = handler (some agent)
  attach handler refuse (err e) = refuse (lookup_code e)

  unfoldable pub auth_interceptor :
      Bool → Table → List String → String → Metadata → (Option Store.Agent → R) → (Code → R) → R
  unfolding token_from_metadata authenticate_by_token_hash
  auth_interceptor fault t skip full_method md handler refuse =
      if member string_eq full_method skip then handler none else elim (token_from_metadata md) [
        | err e ↦ refuse e
        | ok token ↦ attach handler refuse (authenticate_by_token_hash fault (hash_token token) t)
      ]
