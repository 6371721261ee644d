-- ===== src/Store.antt =====
-- internal/store/store.go: the registry of agents. The SQLite table `agents` is a list of rows in
-- insertion order, and each method runs its SQL statement on it. `fault` says that the driver reports
-- an error and the statement has no effect.
pub mod Registry
pub mod Tokens
pub mod Open
use seine.Prelude.{
  ℕ, String, Bool, false, ◌&&◌, ◌||◌, not, Option, none, some, List, [], ◌∷◌, map, ◌==◌,
  if◌then◌else◌, nat_eq, list_beq,
}
use seine.Prelude.Int.{ℤ, pos, ltb_ℤ}
use seine.Prelude.Result.{Result, ok, err}
use seine.Prelude.Sort.{sort_slice, string_less}
use seine.Api.{Time, zero_time, is_zero, from_unix}

-- A token's SHA-256 digest.
abbrev pub Digest : Type 0
Digest = List ℕ

abbrev pub digest_beq : Digest → Digest → Bool
digest_beq = list_beq nat_eq

pub record Agent : Type 0 where
  pub id : String
  pub name : String
  pub public_key : String
  pub endpoint : String
  pub auth_token_hash : Digest
  pub created_at : Time
  pub last_seen_at : Time

-- A row of the table.
pub record Row : Type 0 where
  pub id : String
  pub name : String
  pub public_key : String
  pub endpoint : String
  pub auth_token_hash : Digest
  pub created_at : ℤ
  pub last_seen_at : ℤ

pub data StoreError : Type 0 where
  not_found driver constraint : StoreError

abbrev pub Table : Type 0
Table = List Row

-- `scanAgent` on a row
unfoldable pub scan_agent : Row → Agent
scan_agent r = record {
  id = r.id;
  name = r.name;
  public_key = r.public_key;
  endpoint = r.endpoint;
  auth_token_hash = r.auth_token_hash;
  created_at = from_unix r.created_at;
  last_seen_at = if ltb_ℤ (pos 0) r.last_seen_at then from_unix r.last_seen_at else zero_time;
}

-- the row that the `INSERT` proposes; `now` is the clock's second
unfoldable pub proposed : ℤ → Agent → Row
proposed now a = record {
  id = a.id;
  name = a.name;
  public_key = a.public_key;
  endpoint = a.endpoint;
  auth_token_hash = a.auth_token_hash;
  created_at = if is_zero a.created_at then now else a.created_at.unix;
  last_seen_at = a.last_seen_at.unix;
}

-- `ON CONFLICT(name) DO UPDATE SET`: all columns but `name` and `created_at`
unfoldable pub replace_row : Row → Row → Row
replace_row new old = record old {
  id = new.id;
  public_key = new.public_key;
  endpoint = new.endpoint;
  auth_token_hash = new.auth_token_hash;
  last_seen_at = new.last_seen_at;
}

-- The id is the primary key: no other agent's row may hold it.
unfoldable pub id_taken : Row → Table → Bool
id_taken new [] = false
id_taken new (r ∷ rest) = (r.id == new.id && not (r.name == new.name)) || id_taken new rest

unfoldable pub write_row : Row → Table → Table
unfolding replace_row
write_row new [] = new ∷ []
write_row new (r ∷ rest) =
    if r.name == new.name then replace_row new r ∷ rest else r ∷ write_row new rest

-- The error if there is one, and the table afterwards.
unfoldable pub upsert_agent : Bool → ℤ → Agent → Table → Option StoreError × Table
unfolding proposed id_taken write_row
upsert_agent fault now a t =
    if fault
    then (some driver, t)
    else if id_taken (proposed now a) t
    then (some constraint, t)
    else (none, write_row (proposed now a) t)

-- `SELECT ... WHERE` with `QueryRow`: the first row that passes the test
unfoldable pub query_row : (Row → Bool) → Table → Option Row
query_row test [] = none
query_row test (r ∷ rest) = if test r then some r else query_row test rest

abbrev pub scan_row : Option Row → Result StoreError Agent
scan_row none = err not_found
scan_row (some r) = ok (scan_agent r)

unfoldable pub get_agent_by_name : Bool → String → Table → Result StoreError Agent
unfolding query_row scan_agent
get_agent_by_name fault name t =
    if fault then err driver else scan_row (query_row (λ r. r.name == name) t)

unfoldable pub authenticate_by_token_hash : Bool → Digest → Table → Result StoreError Agent
unfolding query_row scan_agent
authenticate_by_token_hash fault hash t =
    if fault then err driver else scan_row (query_row (λ r. digest_beq r.auth_token_hash hash) t)

-- the `UPDATE` of one row: without an endpoint the stored one is kept
unfoldable pub touch_row : String → ℤ → Row → Row
touch_row endpoint seen r =
    if endpoint == ""
    then record r { last_seen_at = seen }
    else record r { endpoint = endpoint; last_seen_at = seen }

-- `UPDATE agents SET ... WHERE id = ?`
unfoldable pub touch_rows : String → String → ℤ → Table → Table
unfolding touch_row
touch_rows id endpoint seen [] = []
touch_rows id endpoint seen (r ∷ rest) =
    (if r.id == id then touch_row endpoint seen r else r) ∷ touch_rows id endpoint seen rest

unfoldable pub update_heartbeat : Bool → String → String → Time → Table → Option StoreError × Table
unfolding touch_rows
update_heartbeat fault id endpoint when t =
    if fault then (some driver, t) else (none, touch_rows id endpoint when.unix t)

abbrev pub row_less : Row → Row → Bool
row_less a b = string_less a.name b.name

-- `ORDER BY name`
unfoldable pub list_agents : Bool → Table → Result StoreError (List Agent)
unfolding scan_agent sort_slice
list_agents fault t = if fault then err driver else ok (map scan_agent (sort_slice row_less t))
