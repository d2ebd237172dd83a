-- ===== src/Table.antt =====
-- The table forwarded_request (internal/migrate/files/0001_init.up.sql) and the SQL statements of
-- internal/store/request.go on it. A table is the list of its rows; the primary key is the
-- invariant `NodupKeys`, which the statements keep.
pub mod Keys
pub mod Advance
pub mod Selection
pub mod Counts
pub mod Rows
pub mod Relation
use mathlib.Core.Option.{get_or}
use continuum_plugin_bookwar.Prelude.{
  ℕ, zero, suc, String, Bool, true, false, ◌&&◌, ◌||◌, not, Option, none, some, List, [], ◌∷◌,
  Bytes, ◌==◌, ltb, eqb, take, length, if◌then◌else◌,
}

-- A point in time, counted from Go's zero time, 0001-01-01 00:00:00 UTC, which is 0.
abbrev pub Time : Type 0
Time = ℕ

pub record Row : Type 0 where
  pub request_id : String
  pub external_id : Option String
  pub status : String
  pub last_polled : Option Time
  pub error_text : Option Bytes
  pub auto_monitor : Bool
  pub created_at : Time
  pub updated_at : Time

abbrev pub Table : Type 0
Table = List Row

-- status IN ('imported','failed')
unfoldable pub is_terminal : String → Bool
is_terminal status = status == "imported" || status == "failed"

-- COALESCE of two nullable columns
abbrev pub coalesce {ℓ} : {A : Type ℓ} → Option A → Option A → Option A
coalesce none old = old
coalesce (some new) old = some new

-- the row with a key, which is what SELECT ... WHERE request_id = $1 reads
unfoldable pub find : String → Table → Option Row
find k [] = none
find k (r ∷ rs) = if r.request_id == k then some r else find k rs

-- CASE WHEN status IN ('imported','failed') THEN status ELSE new END
unfoldable pub guarded : String → String → String
unfolding is_terminal
guarded old new = if is_terminal old then old else new

-- the assignments of ON CONFLICT (request_id) DO UPDATE SET; `x` is EXCLUDED
unfoldable pub merge : Row → Row → Row
unfolding guarded
merge x r = record r {
  external_id = coalesce x.external_id r.external_id;
  status = guarded r.status x.status;
  last_polled = coalesce x.last_polled r.last_polled;
  error_text = coalesce x.error_text r.error_text;
  auto_monitor = x.auto_monitor || r.auto_monitor;
  updated_at = x.updated_at;
}

-- INSERT ... ON CONFLICT (request_id) DO UPDATE
unfoldable pub upsert : Row → Table → Table
unfolding merge
upsert x [] = x ∷ []
upsert x (r ∷ rs) = if r.request_id == x.request_id then merge x r ∷ rs else r ∷ upsert x rs

-- the assignments of the UPDATE of `MarkPolled`
unfoldable pub polled : Option String → String → Time → Row → Row
unfolding guarded
polled external_id status when r = record r {
  external_id = coalesce external_id r.external_id;
  status = guarded r.status status;
  last_polled = some when;
  error_text = none;
  updated_at = when;
}

-- UPDATE forwarded_request SET ... WHERE request_id = $1
unfoldable pub update_where : String → (Row → Row) → Table → Table
update_where k f [] = []
update_where k f (r ∷ rs) = (if r.request_id == k then f r else r) ∷ update_where k f rs

-- WHERE p
unfoldable pub where_rows : (Row → Bool) → Table → Table
where_rows p [] = []
where_rows p (r ∷ rs) = let rest = where_rows p rs in if p r then r ∷ rest else rest

-- COUNT(*) FILTER (WHERE p)
unfoldable pub count_where : (Row → Bool) → Table → ℕ
count_where p [] = 0
count_where p (r ∷ rs) = let rest = count_where p rs in if p r then suc rest else rest

-- COALESCE(last_polled, '0001-01-01 00:00:00'::timestamptz)
abbrev pub polled_at : Row → Time
polled_at r = get_or r.last_polled 0

-- ORDER BY COALESCE(last_polled, ...) ASC, request_id ASC; `collate` is the order of the
-- database's collation
unfoldable pub row_le : (String → String → Bool) → Row → Row → Bool
row_le collate r s =
    ltb (polled_at r) (polled_at s)
    || eqb (polled_at r) (polled_at s) && collate r.request_id s.request_id

unfoldable pub insert_row : (String → String → Bool) → Row → Table → Table
unfolding row_le
insert_row collate x [] = x ∷ []
insert_row collate x (r ∷ rs) =
    if row_le collate x r then x ∷ r ∷ rs else r ∷ insert_row collate x rs

unfoldable pub order_by : (String → String → Bool) → Table → Table
unfolding insert_row
order_by collate [] = []
order_by collate (r ∷ rs) = insert_row collate r (order_by collate rs)

-- the SELECT of `ListNonTerminal`
unfoldable pub select_non_terminal : (String → String → Bool) → ℕ → Table → Table
unfolding where_rows order_by is_terminal
select_non_terminal collate limit t =
    take limit (order_by collate (where_rows (λ r. not (is_terminal r.status)) t))
