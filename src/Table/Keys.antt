-- ===== src/Table/Keys.antt =====
-- The statements as operations on the map from keys to rows, and the primary key.
use continuum_plugin_bookwar.Prelude.{
  String, ◌≡◌, refl, Option, none, some, [], ◌∷◌, ◌==◌, eq_iff, if◌then◌else◌, arith,
}
use continuum_plugin_bookwar.Table.{Row, Table, Time, find, merge, upsert, polled, update_where}

-- what an INSERT ... ON CONFLICT leaves under its key
abbrev pub upserted : Row → Option Row → Row
upserted x none = x
upserted x (some r) = merge x r

abbrev pub mapped : (Row → Row) → Option Row → Option Row
mapped f none = none
mapped f (some r) = some (f r)

pub merge-request_id : (x r : Row) → (merge x r).request_id ≡ r.request_id
unfolding merge
merge-request_id x r = refl

-- After the upsert of `x`, its key has `x`, if the key had no row, or the row it had, merged with
-- `x`; every other key has the row it had.
pub find-upsert :
    (x : Row) (k : String) (t : Table)
    → find k (upsert x t) ≡ (if x.request_id == k then some (upserted x (find k t)) else find k t)
unfolding find upsert
find-upsert x k [] = refl
find-upsert x k (r ∷ rs) = ground (
  arith,
  eq_iff r.request_id x.request_id,
  eq_iff r.request_id k,
  eq_iff x.request_id k,
  find-upsert x k rs,
)

module _ (j : String) (f : Row → Row) (same : (r : Row) → (f r).request_id ≡ r.request_id) where
  pub find-update_where :
      (k : String) (t : Table)
      → find k (update_where j f t) ≡ (if j == k then mapped f (find k t) else find k t)
  unfolding find update_where
  find-update_where k [] = ground arith
  find-update_where k (r ∷ rs) = ground (
    arith,
    eq_iff r.request_id j,
    eq_iff r.request_id k,
    eq_iff j k,
    same r,
    find-update_where k rs,
  )

pub polled-request_id :
    (e : Option String) (s : String) (w : Time) (r : Row)
    → (polled e s w r).request_id ≡ r.request_id
unfolding polled
polled-request_id e s w r = refl

-- the row that a key finds has that key
pub find-request_id : (k : String) (t : Table) (r : Row) → find k t ≡ some r → r.request_id ≡ k
unfolding find
find-request_id k [] r h = cc
find-request_id k (x ∷ xs) r h = ground (arith, eq_iff x.request_id k, find-request_id k xs r)

-- The primary key: no two rows have one request_id.
abbrev pub NodupKeys : Table → Type 0
NodupKeys [] = Unit
NodupKeys (r ∷ rs) = (find r.request_id rs ≡ none) × NodupKeys rs

pub upsert-NodupKeys : (x : Row) (t : Table) → NodupKeys t → NodupKeys (upsert x t)
unfolding upsert find
upsert-NodupKeys x [] h = (refl, tt)
upsert-NodupKeys x (r ∷ rs) h = ground (
  arith,
  eq_iff r.request_id x.request_id,
  eq_iff x.request_id r.request_id,
  upsert-NodupKeys x rs h.1,
  find-upsert x r.request_id rs,
  merge-request_id x r,
)

module _ (j : String) (f : Row → Row) (same : (r : Row) → (f r).request_id ≡ r.request_id) where
  pub update_where-NodupKeys : (t : Table) → NodupKeys t → NodupKeys (update_where j f t)
  unfolding update_where
  update_where-NodupKeys [] h = tt
  update_where-NodupKeys (r ∷ rs) h = ground (
    arith,
    eq_iff r.request_id j,
    same r,
    update_where-NodupKeys rs h.1,
    find-update_where j f same r.request_id rs,
  )
