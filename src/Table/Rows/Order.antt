-- ===== src/Table/Rows/Order.antt =====
-- ORDER BY and the counts of internal/store/request.go on tables with the same rows.
use mathlib.Core.Path.{subst}
use mathlib.Core.Option.{some-injective}
use continuum_plugin_bookwar.Prelude.{
  ℕ, String, ◌≡◌, refl, sym, ◌∙◌, Bool, true, false, ◌⊎◌, ap, not, some, [], ◌∷◌, ◌==◌, eq_iff,
  eq_refl, Bool-cases, inl, inr, All, Ordered, arith, take, length,
}
use continuum_plugin_bookwar.Table.{
  Row, Table, find, count_where, row_le, insert_row, order_by, is_terminal, select_non_terminal,
}
use continuum_plugin_bookwar.Table.Keys.{NodupKeys}
use continuum_plugin_bookwar.Table.Selection.{
  IsCollation, Before, order_by-Ordered, length-order_by,
}
use continuum_plugin_bookwar.Table.Rows.{
  SameRows, chosen, find-where_rows, where_rows-NodupKeys, find-order_by, order_by-NodupKeys,
}

All-found :
    (P : Row → Type 0) (k : String) (t : Table) (r : Row) → All P t → find k t ≡ some r → P r
unfolding find
All-found P k [] r h e = cc
All-found P k (x ∷ xs) r h e = elim (Bool-cases (x.request_id == k)) [
  | inl same ↦ subst P (some-injective x r (sym (rw same refl) ∙ e)) h.0
  | inr other ↦ All-found P k xs r h.1 (sym (rw other refl) ∙ e)
]

count_where-insert_row :
    (collate : String → String → Bool) (p : Row → Bool) (x : Row) (t : Table)
    → count_where p (insert_row collate x t) ≡ count_where p (x ∷ t)
unfolding insert_row count_where
count_where-insert_row collate p x [] = refl
count_where-insert_row collate p x (r ∷ rs) = ground (arith, count_where-insert_row collate p x rs)

count_where-order_by :
    (collate : String → String → Bool) (p : Row → Bool) (t : Table)
    → count_where p (order_by collate t) ≡ count_where p t
unfolding order_by count_where
count_where-order_by collate p [] = refl
count_where-order_by collate p (r ∷ rs) = ground (
  arith,
  count_where-insert_row collate p r (order_by collate rs),
  count_where-order_by collate p rs,
)

found_first : (x : Row) (xs : Table) → find x.request_id (x ∷ xs) ≡ some x
unfolding find
found_first x xs = rw eq_refl refl

-- a row that a key finds is the first one, or is found behind it
found_behind :
    (x y : Row) (xs : Table)
    → find y.request_id (x ∷ xs) ≡ some y
    → (x ≡ y) ⊎ (((x.request_id == y.request_id) ≡ false) × (find y.request_id xs ≡ some y))
unfolding find
found_behind x y xs e = elim (Bool-cases (x.request_id == y.request_id)) [
  | inl same ↦ inl (some-injective x y (sym (rw same refl) ∙ e))
  | inr other ↦ inr (other, sym (rw other refl) ∙ e)
]

module _ (collate : String → String → Bool) (order : IsCollation collate)
    (antisym : (a b : String) → collate a b ≡ true → collate b a ≡ true → a ≡ b) where
  Before-antisym :
      (r s : Row)
      → Before collate order r s
      → Before collate order s r
      → r.request_id ≡ s.request_id
  unfolding row_le
  Before-antisym r s h k = ground (arith, antisym r.request_id s.request_id)

  -- the first rows of two tables in order
  same_first :
      (r s : Row) (rs ss : Table)
      → Ordered (Before collate order) (r ∷ rs)
      → Ordered (Before collate order) (s ∷ ss)
      → ((k : String) → find k (r ∷ rs) ≡ find k (s ∷ ss))
      → r ≡ s
  same_first r s rs ss o p h =
      elim (found_behind s r ss (sym (h r.request_id) ∙ found_first r rs)) [
        | inl same ↦ sym same
        | inr (differs, behind_s) ↦ elim (found_behind r s rs (h s.request_id ∙ found_first s ss)) [
          | inl same ↦ same
          | inr (_, behind_r) ↦
              let before = All-found (Before collate order s) r.request_id ss r p.0 behind_s in
              let after = All-found (Before collate order r) s.request_id rs s o.0 behind_r in
              absurd (
                ground (
                  arith,
                  eq_iff s.request_id r.request_id,
                  Before-antisym s r before after,
                  differs,
                ))
        ]
      ]

  same_rest :
      (r : Row) (rs ss : Table)
      → NodupKeys (r ∷ rs)
      → NodupKeys (r ∷ ss)
      → ((k : String) → find k (r ∷ rs) ≡ find k (r ∷ ss))
      → (k : String) → find k rs ≡ find k ss
  unfolding find
  same_rest r rs ss m n h k = ground (arith, eq_iff r.request_id k, h k, m.0, n.0)

  Ordered-unique :
      (t u : Table)
      → Ordered (Before collate order) t
      → Ordered (Before collate order) u
      → SameRows t u
      → t ≡ u
  unfolding find
  Ordered-unique [] [] o p h = refl
  Ordered-unique [] (s ∷ ss) o p h =
      absurd (ground (arith, eq_iff s.request_id s.request_id, h.agree s.request_id))
  Ordered-unique (r ∷ rs) [] o p h =
      absurd (ground (arith, eq_iff r.request_id r.request_id, h.agree r.request_id))
  Ordered-unique (r ∷ rs) (s ∷ ss) o p h =
      let same : r ≡ s = same_first r s rs ss o p h.agree in
      let rest : rs ≡ ss = Ordered-unique rs ss o.1 p.1 (record {
        left = h.left.1;
        right = h.right.1;
        agree =
            same_rest r rs ss h.left (subst (λ x. NodupKeys (x ∷ ss)) (sym same) h.right)
              (λ k. h.agree k ∙ ap (λ x. find k (x ∷ ss)) (sym same));
      }) in
      cc (same, rest)

  order_by-SameRows : (t u : Table) → SameRows t u → order_by collate t ≡ order_by collate u
  order_by-SameRows t u h =
      Ordered-unique _ _ (order_by-Ordered collate order t) (order_by-Ordered collate order u)
        (record {
          left = order_by-NodupKeys collate t h.left;
          right = order_by-NodupKeys collate u h.right;
          agree = λ k.
              find-order_by collate k t h.left
              ∙ h.agree k
              ∙ sym (find-order_by collate k u h.right);
        })

  pub select_non_terminal-SameRows :
      (limit : ℕ) (t u : Table)
      → SameRows t u
      → select_non_terminal collate limit t ≡ select_non_terminal collate limit u
  unfolding select_non_terminal
  select_non_terminal-SameRows limit t u h =
      let open_row = λ (r : Row). not (is_terminal r.status) in
      ap (take limit) (
        order_by-SameRows _ _ (record {
          left = where_rows-NodupKeys open_row t h.left;
          right = where_rows-NodupKeys open_row u h.right;
          agree = λ k.
              find-where_rows open_row k t h.left
              ∙ ap (chosen open_row) (h.agree k)
              ∙ sym (find-where_rows open_row k u h.right);
        }))

  pub count_where-SameRows :
      (p : Row → Bool) (t u : Table) → SameRows t u → count_where p t ≡ count_where p u
  count_where-SameRows p t u h =
      sym (count_where-order_by collate p t)
      ∙ ap (count_where p) (order_by-SameRows t u h)
      ∙ count_where-order_by collate p u

  pub length-SameRows : (t u : Table) → SameRows t u → length t ≡ length u
  length-SameRows t u h =
      sym (length-order_by collate t)
      ∙ ap (λ (s : Table). length s) (order_by-SameRows t u h)
      ∙ length-order_by collate u
