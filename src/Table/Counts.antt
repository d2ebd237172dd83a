-- ===== src/Table/Counts.antt =====
-- The counts of RequestStats.
use continuum_plugin_bookwar.Prelude.{
  ◌+◌, ◌≤◌, ◌≡◌, refl, Bool, true, not, [], ◌∷◌, ◌==◌, eq_iff, arith, length,
}
use continuum_plugin_bookwar.Table.{Row, Table, is_terminal, count_where}

-- A weaker test counts at least as many rows.
pub count_where_mono :
    (p q : Row → Bool) (t : Table)
    → ((r : Row) → p r ≡ true → q r ≡ true)
    → count_where p t ≤ count_where q t
unfolding count_where
count_where_mono p q [] h = omega arith
count_where_mono p q (r ∷ rs) h = ground (arith, h r, count_where_mono p q rs h)

-- The three groups of states share no row and leave none out.
pub count_states :
    (t : Table)
    → count_where (λ r. not (is_terminal r.status)) t
        + count_where (λ r. r.status == "failed") t
        + count_where (λ r. r.status == "imported") t
      ≡ length t
unfolding count_where is_terminal
count_states [] = refl
count_states (r ∷ rs) = ground (
  arith,
  count_states rs,
  eq_iff r.status "failed",
  eq_iff r.status "imported",
  eq_iff "failed" "imported",
)
