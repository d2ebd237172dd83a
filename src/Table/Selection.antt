-- ===== src/Table/Selection.antt =====
-- What ListNonTerminal's SELECT returns: the rows that are not terminal, oldest poll first.
use mathlib.Core.List.{Perm}
use mathlib.Core.List.Perm
use Prim.Native.Nat.{min}
use continuum_plugin_bookwar.Prelude.{
  ℕ, zero, suc, ◌≤◌, String, ◌≡◌, refl, Bool, true, false, not, [], ◌∷◌, ◌++◌, inl, inr, arith,
  Bool-cases, length, take, drop, take-append-drop, length-take, All, Ordered, AllBefore,
  Ordered-append, AllBefore-weaken,
}
use continuum_plugin_bookwar.Table.{
  Row, Table, is_terminal, where_rows, count_where, polled_at, row_le, insert_row, order_by,
  select_non_terminal,
}

-- the rows that the LIMIT cuts off
unfoldable pub left_out : (String → String → Bool) → ℕ → Table → Table
unfolding order_by where_rows is_terminal
left_out collate limit t =
    drop limit (order_by collate (where_rows (λ r. not (is_terminal r.status)) t))

module _ (P : Row → Type 0) where
  pub All-insert_row :
      (collate : String → String → Bool) (x : Row) (t : Table)
      → P x
      → All P t
      → All P (insert_row collate x t)
  unfolding insert_row
  All-insert_row collate x [] p h = (p, tt)
  All-insert_row collate x (r ∷ rs) p h = ground (arith, All-insert_row collate x rs p h.1)

  pub All-order_by :
      (collate : String → String → Bool) (t : Table) → All P t → All P (order_by collate t)
  unfolding order_by
  All-order_by collate [] h = tt
  All-order_by collate (r ∷ rs) h =
      All-insert_row collate r (order_by collate rs) h.0 (All-order_by collate rs h.1)

  pub All-take : (n : ℕ) (t : Table) → All P t → All P (take n t)
  All-take zero t h = tt
  All-take (suc n) [] h = tt
  All-take (suc n) (r ∷ rs) h = (h.0, All-take n rs h.1)

-- Every row that the SELECT returns is in a state that is not terminal.
pub select_non_terminal-All :
    (collate : String → String → Bool) (limit : ℕ) (t : Table)
    → All (λ r. is_terminal r.status ≡ false) (select_non_terminal collate limit t)
unfolding select_non_terminal
select_non_terminal-All collate limit t =
    All-take _ limit _ (All-order_by _ collate _ (open_rows t))
  where
    open_rows :
        (u : Table)
        → All (λ r. is_terminal r.status ≡ false) (where_rows (λ r. not (is_terminal r.status)) u)
    open_rows [] = tt
    open_rows (r ∷ rs) = ground (arith, open_rows rs)

insert_row-perm :
    (collate : String → String → Bool) (x : Row) (t : Table) → Perm (insert_row collate x t) (x ∷ t)
unfolding insert_row
insert_row-perm collate x [] = Perm.refl (x ∷ [])
insert_row-perm collate x (r ∷ rs) = elim (Bool-cases (row_le collate x r)) [
  | inl le ↦ rw le (Perm.refl (x ∷ r ∷ rs))
  | inr gt ↦ rw gt (Perm.trans (Perm.cons r (insert_row-perm collate x rs)) (Perm.swap x r rs))
]

order_by-perm : (collate : String → String → Bool) (t : Table) → Perm (order_by collate t) t
unfolding order_by
order_by-perm collate [] = Perm.refl []
order_by-perm collate (r ∷ rs) =
    Perm.trans (insert_row-perm collate r (order_by collate rs))
      (Perm.cons r (order_by-perm collate rs))

-- The rows that the SELECT returns and those that its LIMIT cuts off are, together, the rows that
-- are not terminal, each as often as in the table.
select_non_terminal-perm :
    (collate : String → String → Bool) (limit : ℕ) (t : Table)
    → Perm
        (select_non_terminal collate limit t ++ left_out collate limit t)
        (where_rows (λ r. not (is_terminal r.status)) t)
unfolding select_non_terminal left_out
select_non_terminal-perm collate limit t = rw take-append-drop (order_by-perm collate _)

length-insert_row :
    (collate : String → String → Bool) (x : Row) (t : Table)
    → length (insert_row collate x t) ≡ suc (length t)
unfolding insert_row
length-insert_row collate x [] = refl
length-insert_row collate x (r ∷ rs) = ground (arith, length-insert_row collate x rs)

pub length-order_by :
    (collate : String → String → Bool) (t : Table) → length (order_by collate t) ≡ length t
unfolding order_by
length-order_by collate [] = refl
length-order_by collate (r ∷ rs) =
    omega (arith, length-insert_row collate r (order_by collate rs), length-order_by collate rs)

length-where_rows : (p : Row → Bool) (t : Table) → length (where_rows p t) ≡ count_where p t
unfolding where_rows count_where
length-where_rows p [] = refl
length-where_rows p (r ∷ rs) = ground (arith, length-where_rows p rs)

-- It returns as many of them as the LIMIT allows.
pub length-select_non_terminal :
    (collate : String → String → Bool) (limit : ℕ) (t : Table)
    → length (select_non_terminal collate limit t)
      ≡ min limit (count_where (λ r. not (is_terminal r.status)) t)
unfolding select_non_terminal
length-select_non_terminal collate limit t =
    let open_rows : Table = where_rows (λ r. not (is_terminal r.status)) t in
    omega (
      arith,
      length-take limit (order_by collate open_rows),
      length-order_by collate open_rows,
      length-where_rows (λ r. not (is_terminal r.status)) t,
    )

-- A collation is a total order on the keys.
pub record IsCollation (collate : String → String → Bool) : Type 0 where
  pub total : (a b : String) → collate a b ≡ false → collate b a ≡ true
  pub trans : (a b c : String) → collate a b ≡ true → collate b c ≡ true → collate a c ≡ true

module _ (collate : String → String → Bool) (order : IsCollation collate) where
  abbrev pub Before : Row → Row → Type 0
  Before r s = row_le collate r s ≡ true

  Before-polled_at : (r s : Row) → Before r s → polled_at r ≤ polled_at s
  unfolding row_le
  Before-polled_at r s h = ground arith

  Before-total : (r s : Row) → row_le collate r s ≡ false → Before s r
  unfolding row_le
  Before-total r s h = ground (arith, order.total r.request_id s.request_id)

  Before-trans : (r s t : Row) → Before r s → Before s t → Before r t
  unfolding row_le
  Before-trans r s t h k = ground (arith, order.trans r.request_id s.request_id t.request_id)

  All-Before : (x r : Row) (rs : Table) → Before x r → All (Before r) rs → All (Before x) rs
  All-Before x r [] h k = tt
  All-Before x r (s ∷ ss) h k = (Before-trans x r s h k.0, All-Before x r ss h k.1)

  insert_row-Ordered :
      (x : Row) (t : Table) → Ordered Before t → Ordered Before (insert_row collate x t)
  unfolding insert_row
  insert_row-Ordered x [] h = (tt, tt)
  insert_row-Ordered x (r ∷ rs) h = elim (Bool-cases (row_le collate x r)) [
    | inl le ↦ rw le ((le, All-Before x r rs le h.0), h)
    | inr gt ↦ rw gt (
      All-insert_row (Before r) collate x rs (Before-total x r gt) h.0,
      insert_row-Ordered x rs h.1,
    )
  ]

  pub order_by-Ordered : (t : Table) → Ordered Before (order_by collate t)
  unfolding order_by
  order_by-Ordered [] = tt
  order_by-Ordered (r ∷ rs) = insert_row-Ordered r (order_by collate rs) (order_by-Ordered rs)

  -- No row that the LIMIT cuts off was polled earlier than a row that the SELECT returns.
  select_non_terminal-AllBefore :
      (limit : ℕ) (t : Table)
      → AllBefore
          (λ r s. polled_at r ≤ polled_at s)
          (select_non_terminal collate limit t)
          (left_out collate limit t)
  unfolding select_non_terminal left_out
  select_non_terminal-AllBefore limit t =
      let open_rows : Table = where_rows (λ r. not (is_terminal r.status)) t in
      AllBefore-weaken Before (λ r s. polled_at r ≤ polled_at s) _ _
        (λ r s h. Before-polled_at r s h)
        (Ordered-append Before (take limit (order_by collate open_rows)) _
          (rw take-append-drop (order_by-Ordered open_rows)))

  -- The SELECT returns as many rows as the limit allows of those that are not terminal. The rows that
  -- it returns and those that the limit cuts off are, together, the rows that are not terminal, each
  -- as often as in the table, and none that is cut off was polled earlier than one that is returned.
  pub select_non_terminal_lem :
      (limit : ℕ) (t : Table)
      → (length (select_non_terminal collate limit t)
          ≡ min limit (length (where_rows (λ r. not (is_terminal r.status)) t)))
        × Perm
            (select_non_terminal collate limit t ++ left_out collate limit t)
            (where_rows (λ r. not (is_terminal r.status)) t)
        × AllBefore
            (λ r s. polled_at r ≤ polled_at s)
            (select_non_terminal collate limit t)
            (left_out collate limit t)
  unfolding select_non_terminal
  select_non_terminal_lem limit t = (
    omega (
      arith,
      length-select_non_terminal collate limit t,
      length-where_rows (λ r. not (is_terminal r.status)) t,
    ),
    select_non_terminal-perm collate limit t,
    select_non_terminal-AllBefore limit t,
  )
