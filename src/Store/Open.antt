-- ===== src/Store/Open.antt =====
-- internal/store/store.go: `Open`, `migrate` and `HashToken`. A database is the table `agents`, `none`
-- where it has not been created; the driver's answers are inputs.
use seine.Prelude.{String, Bool, true, false, Option, none, some, [], if◌then◌else◌}
use seine.Prelude.Result.{Result, ok, err}
use seine.Store.{Table, Digest}

pub data OpenError : Type 0 where
  open_database ping migration : OpenError

-- `CREATE TABLE IF NOT EXISTS`
unfoldable pub migrate : Option Table → Option Table
migrate none = some []
migrate (some t) = some t

-- Whether the handle is left open.
abbrev pub IsHandleOpen : Type 0
IsHandleOpen = Bool

unfoldable pub open_store :
    Bool → Bool → Bool → Option Table → Result OpenError (Option Table) × IsHandleOpen
unfolding migrate
open_store opened pinged migrated db =
    if opened
    then if pinged
      then if migrated then (ok (migrate db), true) else (err migration, false)
      else (err ping, false)
    else (err open_database, false)

-- `sha_256` is `sha256.Sum256`, on the text's bytes.
unfoldable pub hash_token : (String → Digest) → String → Digest
hash_token sha_256 token = sha_256 token
