-- ===== src/Table/Relation.antt =====
-- The table as SQL has it, without an order of its rows, and the INSERT of UpsertForwardedRequest and the
-- UPDATE of MarkPolled on it (internal/store/request.go).
use mathlib.Core.Quot
use mathlib.Core.Quot.{Quot, Quot-set}
use continuum_plugin_bookwar.Prelude.{
  String, Bool, ◌||◌, ◌≡◌, ◌≢◌, refl, ap, Option, none, some, ◌==◌, eq_iff, if◌then◌else◌, arith,
}
use continuum_plugin_bookwar.Table.{
  Row, coalesce, Table, Time, guarded, merge, find, upsert, polled, update_where,
}
use continuum_plugin_bookwar.Table.Keys.{
  NodupKeys, upserted, mapped, find-upsert, find-update_where, upsert-NodupKeys,
  update_where-NodupKeys, polled-request_id,
}
use continuum_plugin_bookwar.Table.Rows.{SameRows, upsert-SameRows, update_where-SameRows}

-- a table that keeps its primary key
abbrev pub Keyed : Type 0
Keyed = (t : Table) × NodupKeys t

abbrev SameKeyed : Keyed → Keyed → Type 0
SameKeyed t u = SameRows t.0 u.0

abbrev pub Relation : Type 0
Relation = Quot SameKeyed

-- the relation of a table
abbrev pub relation_of : Keyed → Relation
relation_of t = Quot.mk t

-- INSERT ... ON CONFLICT (request_id) DO UPDATE
unfoldable pub put_row : Row → Relation → Relation
put_row x =
    Quot.lift Quot-set (λ t. Quot.mk (upsert x t.0, upsert-NodupKeys x t.0 t.1))
      (λ t u h. Quot.sound (upsert-SameRows x t.0 u.0 h))

-- UPDATE ... WHERE request_id = $1
unfoldable pub mark_row : String → Option String → String → Time → Relation → Relation
mark_row id e s stamp =
    let f = polled e s stamp in
    let same = polled-request_id e s stamp in
    Quot.lift Quot-set
      (λ t. Quot.mk (update_where id f t.0, update_where-NodupKeys id f same t.0 t.1))
      (λ t u h. Quot.sound (update_where-SameRows id f same t.0 u.0 h))

guarded_again : (old new : String) → guarded (guarded old new) new ≡ guarded old new
unfolding guarded
guarded_again old new = ground arith

guarded_self : (s : String) → guarded s s ≡ s
unfolding guarded
guarded_self s = ground arith

coalesce_again {ℓ} :
    {A : Type ℓ} (new old : Option A) → coalesce new (coalesce new old) ≡ coalesce new old
coalesce_again none old = refl
coalesce_again (some a) old = refl

coalesce_self {ℓ} : {A : Type ℓ} (o : Option A) → coalesce o o ≡ o
coalesce_self none = refl
coalesce_self (some a) = refl

or_again : (a b : Bool) → (a || (a || b)) ≡ (a || b)
or_again a b = ground arith

or_self : (a : Bool) → (a || a) ≡ a
or_self a = ground arith

merge_again : (x : Row) (o : Option Row) → merge x (upserted x o) ≡ upserted x o
unfolding merge
merge_again x none = λ i. record x {
  external_id = coalesce_self x.external_id i;
  status = guarded_self x.status i;
  last_polled = coalesce_self x.last_polled i;
  error_text = coalesce_self x.error_text i;
  auto_monitor = or_self x.auto_monitor i;
}
merge_again x (some r) = λ i. record (merge x r) {
  external_id = coalesce_again x.external_id r.external_id i;
  status = guarded_again r.status x.status i;
  last_polled = coalesce_again x.last_polled r.last_polled i;
  error_text = coalesce_again x.error_text r.error_text i;
  auto_monitor = or_again x.auto_monitor r.auto_monitor i;
}

polled_again :
    (e : Option String) (s : String) (stamp : Time) (r : Row)
    → polled e s stamp (polled e s stamp r) ≡ polled e s stamp r
unfolding polled
polled_again e s stamp r = λ i. record (polled e s stamp r) {
  external_id = coalesce_again e r.external_id i;
  status = guarded_again r.status s i;
}

module _ (x y : Row) (k : String) (t : Table) (differ : x.request_id ≢ y.request_id) where
  find_inserts : find k (upsert x (upsert y t)) ≡ find k (upsert y (upsert x t))
  find_inserts = ground (
    arith,
    find-upsert x k (upsert y t),
    find-upsert y k t,
    find-upsert y k (upsert x t),
    find-upsert x k t,
    eq_iff x.request_id k,
    eq_iff y.request_id k,
  )

find_insert_again :
    (x : Row) (k : String) (t : Table) → find k (upsert x (upsert x t)) ≡ find k (upsert x t)
find_insert_again x k t = ground (
  arith,
  find-upsert x k (upsert x t),
  find-upsert x k t,
  eq_iff x.request_id k,
  merge_again x (find k t),
)

mapped_again :
    (e : Option String) (s : String) (stamp : Time) (o : Option Row)
    → mapped (polled e s stamp) (mapped (polled e s stamp) o) ≡ mapped (polled e s stamp) o
mapped_again e s stamp none = refl
mapped_again e s stamp (some r) = ap some (polled_again e s stamp r)

module _ (id : String) (e : Option String) (s : String) (stamp : Time) (k : String)
    (t : Table) where
  abbrev poll : Table → Table
  poll = update_where id (polled e s stamp)

  abbrev found_polled :
      (t' : Table)
      → find k (poll t') ≡ (if id == k then mapped (polled e s stamp) (find k t') else find k t')
  found_polled t' = find-update_where id (polled e s stamp) (polled-request_id e s stamp) k t'

  find_insert_poll :
      (x : Row) → x.request_id ≢ id → find k (upsert x (poll t)) ≡ find k (poll (upsert x t))
  find_insert_poll x differ = ground (
    arith,
    find-upsert x k (poll t),
    found_polled t,
    found_polled (upsert x t),
    find-upsert x k t,
    eq_iff x.request_id k,
    eq_iff id k,
  )

  find-poll_again : find k (poll (poll t)) ≡ find k (poll t)
  find-poll_again =
      ground (
        arith,
        found_polled (poll t),
        found_polled t,
        eq_iff id k,
        mapped_again e s stamp (find k t),
      )

sound : (t u : Keyed) → ((k : String) → find k t.0 ≡ find k u.0) → relation_of t ≡ relation_of u
sound t u h =
    let same : SameKeyed t u = record { left = t.1; right = u.1; agree = h } in Quot.sound same

by_table :
    (f g : Relation → Relation)
    → ((t : Keyed) → f (relation_of t) ≡ g (relation_of t))
    → (r : Relation) → f r ≡ g r
by_table f g h = Quot.ind (λ q. Quot-set _ _) h

-- The INSERTs for two requests, and the INSERT for one and the UPDATE for the other, may run in either
-- order, and each of the two statements, run again at once, changes nothing more.
pub put_row-mark_row_comm :
    (x y : Row) (e : Option String) (s : String) (stamp : Time) (r : Relation)
    → x.request_id ≢ y.request_id
    → (put_row x (put_row y r) ≡ put_row y (put_row x r))
      × (put_row x (mark_row y.request_id e s stamp r)
          ≡ mark_row y.request_id e s stamp (put_row x r))
      × (put_row x (put_row x r) ≡ put_row x r)
      × (mark_row y.request_id e s stamp (mark_row y.request_id e s stamp r)
          ≡ mark_row y.request_id e s stamp r)
unfolding put_row mark_row
put_row-mark_row_comm x y e s stamp r differ = (
  by_table (λ q. put_row x (put_row y q)) (λ q. put_row y (put_row x q))
      (λ t. sound _ _ (λ k. find_inserts x y k t.0 differ)) r,
  by_table (λ q. put_row x (mark_row y.request_id e s stamp q))
      (λ q. mark_row y.request_id e s stamp (put_row x q))
      (λ t. sound _ _ (λ k. find_insert_poll y.request_id e s stamp k t.0 x differ)) r,
  by_table (λ q. put_row x (put_row x q)) (put_row x)
      (λ t. sound _ _ (λ k. find_insert_again x k t.0)) r,
  by_table (λ q. mark_row y.request_id e s stamp (mark_row y.request_id e s stamp q))
      (mark_row y.request_id e s stamp)
      (λ t. sound _ _ (λ k. find-poll_again y.request_id e s stamp k t.0)) r,
)
