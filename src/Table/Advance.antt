-- ===== src/Table/Advance.antt =====
-- How a statement may change the rows that are there: forwards only.
use continuum_plugin_bookwar.Prelude.{
  String, ◌≡◌, refl, ◌≢◌, ◌∙◌, true, Option, none, some, ◌==◌, inl, inr, arith, Bool-cases,
}
use continuum_plugin_bookwar.Table.{
  Row, Table, Time, find, is_terminal, merge, upsert, polled, update_where,
}
use continuum_plugin_bookwar.Table.Keys.{find-upsert, find-update_where, polled-request_id}

-- `new` is a later version of the row `old`.
pub record Advances (old new : Row) : Type 0 where
  pub same_id : new.request_id ≡ old.request_id
  pub same_birth : new.created_at ≡ old.created_at
  pub frozen : is_terminal old.status ≡ true → new.status ≡ old.status
  pub keeps_external : old.external_id ≢ none → new.external_id ≢ none
  pub keeps_polled : old.last_polled ≢ none → new.last_polled ≢ none
  pub keeps_auto : old.auto_monitor ≡ true → new.auto_monitor ≡ true

pub Advances-refl : (r : Row) → Advances r r
Advances-refl r = record {
  same_id = refl;
  same_birth = refl;
  frozen = λ _. refl;
  keeps_external = λ h. h;
  keeps_polled = λ h. h;
  keeps_auto = λ h. h;
}

pub Advances-trans : (r s t : Row) → Advances r s → Advances s t → Advances r t
Advances-trans r s t h k = record {
  same_id = k.same_id ∙ h.same_id;
  same_birth = k.same_birth ∙ h.same_birth;
  frozen = λ p. ground (arith, h.frozen p, k.frozen);
  keeps_external = λ p. k.keeps_external (h.keeps_external p);
  keeps_polled = λ p. k.keeps_polled (h.keeps_polled p);
  keeps_auto = λ p. k.keeps_auto (h.keeps_auto p);
}

pub merge-Advances : (x r : Row) → Advances r (merge x r)
unfolding merge
merge-Advances x r = ground arith

pub polled-Advances :
    (e : Option String) (s : String) (w : Time) (r : Row) → Advances r (polled e s w r)
unfolding polled
polled-Advances e s w r = ground arith

-- Every row of `t` is still in `u`, as a later version.
abbrev pub TableAdvances : Table → Table → Type 0
TableAdvances t u =
    (k : String) (r : Row) → find k t ≡ some r → (s : Row) × (find k u ≡ some s) × Advances r s

pub TableAdvances-refl : (t : Table) → TableAdvances t t
TableAdvances-refl t k r h = (r, h, Advances-refl r)

pub TableAdvances-trans :
    (t u v : Table) → TableAdvances t u → TableAdvances u v → TableAdvances t v
TableAdvances-trans t u v f g k r h =
    let (s, hs, first) = f k r h in
    let (w, hw, second) = g k s hs in (w, hw, Advances-trans r s w first second)

-- The upsert keeps every row, and changes forwards the one that it changes.
pub upsert-TableAdvances : (x : Row) (t : Table) → TableAdvances t (upsert x t)
upsert-TableAdvances x t k r h = elim (Bool-cases (x.request_id == k)) [
  | inl same ↦ (merge x r, rw (find-upsert, same, h), merge-Advances x r)
  | inr other ↦ (r, rw (find-upsert, other, h), Advances-refl r)
]

pub polled-TableAdvances :
    (j : String) (e : Option String) (s : String) (w : Time) (t : Table)
    → TableAdvances t (update_where j (polled e s w) t)
polled-TableAdvances j e s w t k r h = elim (Bool-cases (j == k)) [
  | inl same ↦ (
    polled e s w r,
    rw (find-update_where j (polled e s w) (polled-request_id e s w), same, h),
    polled-Advances e s w r,
  )
  | inr other ↦ (
    r,
    rw (find-update_where j (polled e s w) (polled-request_id e s w), other, h),
    Advances-refl r,
  )
]
