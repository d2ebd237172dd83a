-- ===== src/Table/Rows.antt =====
-- The rows of a table without their order: SELECT, INSERT and UPDATE of internal/store/request.go.
pub mod Order
use mathlib.Core.Path.{subst}
use mathlib.Core.Option.{some-injective}
use continuum_plugin_bookwar.Prelude.{
  ℕ, String, ◌≡◌, refl, sym, ap, ◌∙◌, Bool, true, false, ◌⊎◌, ap, not, Option, none, some, [], ◌∷◌,
  ◌==◌, eq_iff, eq_refl, if◌then◌else◌, Bool-cases, inl, inr, All, Ordered, arith, take, length,
}
use continuum_plugin_bookwar.Table.{
  Row, Table, find, upsert, update_where, where_rows, count_where, row_le, insert_row, order_by,
  is_terminal, select_non_terminal,
}
use continuum_plugin_bookwar.Table.Keys.{
  NodupKeys, upserted, mapped, find-upsert, find-update_where, upsert-NodupKeys,
  update_where-NodupKeys,
}
use continuum_plugin_bookwar.Table.Selection.{
  IsCollation, Before, order_by-Ordered, length-order_by,
}

-- Two tables have the same row under each key.
pub record SameRows (t u : Table) : Type 0 where
  pub left : NodupKeys t
  pub right : NodupKeys u
  pub agree : (k : String) → find k t ≡ find k u

-- the row, if it is chosen
abbrev pub chosen : (Row → Bool) → Option Row → Option Row
chosen p none = none
chosen p (some r) = if p r then some r else none

pub find-where_rows :
    (p : Row → Bool) (k : String) (t : Table)
    → NodupKeys t
    → find k (where_rows p t) ≡ chosen p (find k t)
unfolding find where_rows
find-where_rows p k [] h = refl
find-where_rows p k (r ∷ rs) h =
    ground (arith, eq_iff r.request_id k, find-where_rows p k rs h.1, h.0)

pub where_rows-NodupKeys : (p : Row → Bool) (t : Table) → NodupKeys t → NodupKeys (where_rows p t)
unfolding where_rows
where_rows-NodupKeys p [] h = tt
where_rows-NodupKeys p (r ∷ rs) h =
    ground (arith, where_rows-NodupKeys p rs h.1, find-where_rows p r.request_id rs h.1, h.0)

module _ (collate : String → String → Bool) where
  find-insert_row :
      (x : Row) (k : String) (t : Table)
      → find x.request_id t ≡ none
      → find k (insert_row collate x t) ≡ (if x.request_id == k then some x else find k t)
  unfolding find insert_row
  find-insert_row x k [] h = ground arith
  find-insert_row x k (r ∷ rs) h = ground (
    arith,
    eq_iff r.request_id x.request_id,
    eq_iff r.request_id k,
    eq_iff x.request_id k,
    find-insert_row x k rs,
  )

  insert_row-NodupKeys :
      (x : Row) (t : Table)
      → find x.request_id t ≡ none
      → NodupKeys t
      → NodupKeys (insert_row collate x t)
  unfolding find insert_row
  insert_row-NodupKeys x [] h n = (refl, tt)
  insert_row-NodupKeys x (r ∷ rs) h n = ground (
    arith,
    eq_iff r.request_id x.request_id,
    eq_iff x.request_id r.request_id,
    find-insert_row x r.request_id rs,
    insert_row-NodupKeys x rs,
  )

  pub find-order_by :
      (k : String) (t : Table) → NodupKeys t → find k (order_by collate t) ≡ find k t
  unfolding find order_by
  find-order_by k [] h = refl
  find-order_by k (r ∷ rs) h = ground (
    arith,
    find-insert_row r k (order_by collate rs),
    find-order_by r.request_id rs h.1,
    find-order_by k rs h.1,
    h.0,
  )

  pub order_by-NodupKeys : (t : Table) → NodupKeys t → NodupKeys (order_by collate t)
  unfolding order_by
  order_by-NodupKeys [] h = tt
  order_by-NodupKeys (r ∷ rs) h =
      insert_row-NodupKeys r (order_by collate rs) (find-order_by r.request_id rs h.1 ∙ h.0)
        (order_by-NodupKeys rs h.1)

pub upsert-SameRows : (x : Row) (t u : Table) → SameRows t u → SameRows (upsert x t) (upsert x u)
upsert-SameRows x t u h = record {
  left = upsert-NodupKeys x t h.left;
  right = upsert-NodupKeys x u h.right;
  agree = λ k.
      find-upsert x k t
      ∙ ap (λ (o : Option Row). if x.request_id == k then some (upserted x o) else o) (h.agree k)
      ∙ sym (find-upsert x k u);
}

module _ (j : String) (f : Row → Row) (same : (r : Row) → (f r).request_id ≡ r.request_id) where
  pub update_where-SameRows :
      (t u : Table) → SameRows t u → SameRows (update_where j f t) (update_where j f u)
  update_where-SameRows t u h = record {
    left = update_where-NodupKeys j f same t h.left;
    right = update_where-NodupKeys j f same u h.right;
    agree = λ k.
        find-update_where j f same k t
        ∙ ap (λ (o : Option Row). if j == k then mapped f o else o) (h.agree k)
        ∙ sym (find-update_where j f same k u);
  }
