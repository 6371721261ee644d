-- ===== src/Store/Registry.antt =====
-- internal/store/store.go: the uniqueness constraints of the table hold after every statement.
use seine.Prelude.{
  String, ◌≡◌, refl, Bool, true, false, some, List, [], ◌∷◌, ◌==◌, ◌⊎◌, inl, inr, arith, eq_iff,
  Bool-cases, In, Distinct,
}
use seine.Prelude.Int.{ℤ}
use seine.Api.{Time}
use seine.Store.{
  Row, Table, Agent, StoreError, proposed, replace_row, id_taken, write_row, upsert_agent,
  touch_row, touch_rows, update_heartbeat,
}

abbrev pub row_names : Table → List String
row_names [] = []
row_names (r ∷ rest) = r.name ∷ row_names rest

abbrev pub row_ids : Table → List String
row_ids [] = []
row_ids (r ∷ rest) = r.id ∷ row_ids rest

-- The primary key and the UNIQUE constraint.
pub record IsRegistry (t : Table) : Type 0 where
  pub names : Distinct (row_names t)
  pub ids : Distinct (row_ids t)

name_of_write :
    (new : Row) (t : Table) (n : String)
    → In n (row_names (write_row new t))
    → (n ≡ new.name) ⊎ In n (row_names t)
unfolding write_row replace_row
name_of_write new [] n h = h
name_of_write new (r ∷ rest) n h = elim (Bool-cases (r.name == new.name)) [
  | inl p ↦ inr (rw p at h)
  | inr p ↦
      let ih = name_of_write new rest n in
      let m : In n (r.name ∷ row_names (write_row new rest)) = rw p at h in ground (arith, ih)
]

id_of_write :
    (new : Row) (t : Table) (i : String)
    → In i (row_ids (write_row new t))
    → (i ≡ new.id) ⊎ In i (row_ids t)
unfolding write_row replace_row
id_of_write new [] i h = h
id_of_write new (r ∷ rest) i h = elim (Bool-cases (r.name == new.name)) [
  | inl p ↦ let m : In i (new.id ∷ row_ids rest) = rw p at h in ground arith
  | inr p ↦
      let ih = id_of_write new rest i in
      let m : In i (r.id ∷ row_ids (write_row new rest)) = rw p at h in ground (arith, ih)
]

-- A free id stands in no row but the one with the new row's name.
name_of_free_id :
    (new : Row) (t : Table)
    → id_taken new t ≡ false
    → In new.id (row_ids t)
    → In new.name (row_names t)
unfolding id_taken
name_of_free_id new [] free h = h
name_of_free_id new (r ∷ rest) free h =
    let ih = name_of_free_id new rest in
    ground (arith, ih, eq_iff r.id new.id, eq_iff r.name new.name)

names_of_write :
    (new : Row) (t : Table) → Distinct (row_names t) → Distinct (row_names (write_row new t))
unfolding write_row replace_row
names_of_write new [] d = (λ h. h, tt)
names_of_write new (r ∷ rest) d = elim (Bool-cases (r.name == new.name)) [
  | inl p ↦ rw p d
  | inr p ↦ rw p (
    λ h. elim (name_of_write new rest r.name h) [
      | inl e ↦ ground (arith, eq_iff r.name new.name)
      | inr m ↦ d.0 m
    ],
    names_of_write new rest d.1,
  )
]

ids_of_write :
    (new : Row) (t : Table)
    → id_taken new t ≡ false
    → Distinct (row_names t)
    → Distinct (row_ids t)
    → Distinct (row_ids (write_row new t))
unfolding write_row replace_row id_taken
ids_of_write new [] free n d = (λ h. h, tt)
ids_of_write new (r ∷ rest) free n d = elim (Bool-cases (r.name == new.name)) [
  | inl p ↦
      let same : r.name ≡ new.name = (eq_iff r.name new.name).0 p in
      rw p (λ h. n.0 (rw same (name_of_free_id new rest (ground arith) h)), d.1)
  | inr p ↦
      let free' : id_taken new rest ≡ false = ground arith in
      rw p (
        λ h. elim (id_of_write new rest r.id h) [
          | inl e ↦ ground (arith, eq_iff r.id new.id)
          | inr m ↦ d.0 m
        ],
        ids_of_write new rest free' n.1 d.1,
      )
]

names_of_touch :
    (id endpoint : String) (seen : ℤ) (t : Table)
    → row_names (touch_rows id endpoint seen t) ≡ row_names t
unfolding touch_rows touch_row
names_of_touch id endpoint seen [] = refl
names_of_touch id endpoint seen (r ∷ rest) = ground (arith, names_of_touch id endpoint seen rest)

ids_of_touch :
    (id endpoint : String) (seen : ℤ) (t : Table)
    → row_ids (touch_rows id endpoint seen t) ≡ row_ids t
unfolding touch_rows touch_row
ids_of_touch id endpoint seen [] = refl
ids_of_touch id endpoint seen (r ∷ rest) = ground (arith, ids_of_touch id endpoint seen rest)

-- Whatever `UpsertAgent` returns, names and ids stay unique in the table.
pub upsert_agent-IsRegistry :
    (fault : Bool) (now : ℤ) (a : Agent) (t : Table)
    → IsRegistry t
    → IsRegistry (upsert_agent fault now a t).1
unfolding upsert_agent
upsert_agent-IsRegistry true now a t h = h
upsert_agent-IsRegistry false now a t h = elim (Bool-cases (id_taken (proposed now a) t)) [
  | inl p ↦ rw p h
  | inr p ↦ rw p (record {
    names = names_of_write (proposed now a) t h.names;
    ids = ids_of_write (proposed now a) t p h.names h.ids;
  })
]

-- Whatever `UpdateHeartbeat` returns, names and ids stay unique in the table.
pub update_heartbeat-IsRegistry :
    (fault : Bool) (id endpoint : String) (when : Time) (t : Table)
    → IsRegistry t
    → IsRegistry (update_heartbeat fault id endpoint when t).1
unfolding update_heartbeat
update_heartbeat-IsRegistry true id endpoint when t h = h
update_heartbeat-IsRegistry false id endpoint when t h = record {
  names = rw (names_of_touch id endpoint when.unix t) h.names;
  ids = rw (ids_of_touch id endpoint when.unix t) h.ids;
}

-- A statement that returns an error has changed nothing.
pub upsert_agent_error :
    (fault : Bool) (now : ℤ) (a : Agent) (t : Table) {e : StoreError}
    → (upsert_agent fault now a t).0 ≡ some e
    → (upsert_agent fault now a t).1 ≡ t
unfolding upsert_agent
upsert_agent_error fault now a t h = ground arith
