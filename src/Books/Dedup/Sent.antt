-- ===== src/Books/Dedup/Sent.antt =====
-- How many requests the fan-out sends.
use continuum_plugin_bookwar.Prelude.{
  ℕ, zero, suc, ◌+◌, ◌≤◌, ◌≡◌, refl, ◌∙◌, Bool-cases, inl, inr, Option, none, some, ◌++◌, Bytes, ℤ,
  length, length-append, arith,
}
use continuum_plugin_bookwar.Result.{Result, ok, err}
use continuum_plugin_bookwar.World.{Env, World, Act, pure, ◌>>=◌, on_result, send}
use continuum_plugin_bookwar.Upstream.{Client, get}
use continuum_plugin_bookwar.Books.Types.{Book, Paged, ListParams, Codec}
use continuum_plugin_bookwar.Books.Listing.{read_page, list_path, list_books}
use continuum_plugin_bookwar.Books.Dedup.{
  Collected, add_books, or_default, is_enough, with_page, fan_out, list_books_deduped,
}

-- So many requests at most were sent between two worlds, and the table is the same.
pub record SentAtMost (n : ℕ) (w v : World) : Type 0 where
  pub count : length v.sent ≤ n + length w.sent
  pub table : v.table ≡ w.table

none_sent : (w : World) → SentAtMost 0 w w
none_sent w = record { count = omega arith; table = refl }

SentAtMost-weaken : (n m : ℕ) (w v : World) → n ≤ m → SentAtMost n w v → SentAtMost m w v
SentAtMost-weaken n m w v h s = record { count = omega (arith, h, s.count); table = s.table }

SentAtMost-trans :
    (n m : ℕ) (w v u : World) → SentAtMost n w v → SentAtMost m v u → SentAtMost (n + m) w u
SentAtMost-trans n m w v u s t = record {
  count = omega (arith, s.count, t.count);
  table = t.table ∙ s.table;
}

module _ (env : Env) (lib : Codec) (c : Client) where
  get-SentAtMost :
      (path : Bytes) (o : Option Bytes) (w : World)
      → env.bad_url (c.base_url ++ path) ≡ o
      → SentAtMost 1 w (get env c path w).1
  unfolding get ◌>>=◌ send
  get-SentAtMost path none w h =
      rw h (record { count = omega (arith, length-append w.sent); table = refl })
  get-SentAtMost path (some e) w h = rw h (SentAtMost-weaken 0 1 w w (omega arith) (none_sent w))

  answer-SentAtMost :
      {A : Type 0} (n : ℕ) (r : Result Bytes) (f : Bytes → Result A) (w v : World)
      → SentAtMost n w v
      → SentAtMost n w
          (on_result {B = Act (Result A)} r (λ e. pure (err e)) (λ body. pure (f body)) v).1
  answer-SentAtMost n (ok body) f w v h = h
  answer-SentAtMost n (err e) f w v h = h

  list_books-SentAtMost : (p : ListParams) (w : World) → SentAtMost 1 w (list_books env lib c p w).1
  unfolding list_books ◌>>=◌
  list_books-SentAtMost p w =
      let (answer, v) = get env c (list_path p) w in
      answer-SentAtMost 1 answer (read_page env lib c p) w v (get-SentAtMost (list_path p) _ w refl)

  module _ (p : ListParams) where
    with_page-SentAtMost :
        (n : ℕ) (next : Bytes → Collected → Paged Book → Act (Paged Book × Option Bytes))
        (acc : Collected) (page : Paged Book) (v : World)
        → ((cursor : Bytes) (acc' : Collected) (out : Paged Book)
            → SentAtMost n v (next cursor acc' out v).1)
        → SentAtMost n v (with_page env lib c p next acc page v).1
    unfolding with_page
    with_page-SentAtMost n next acc page v h =
        let acc' : Collected = add_books lib acc page.items in
        elim (Bool-cases (is_enough (or_default p.limit 50) acc'.items page.next_cursor)) [
          | inl enough ↦ rw enough (SentAtMost-weaken 0 n v v (omega arith) (none_sent v))
          | inr more ↦ rw more (h page.next_cursor acc' (record page { items = acc'.items }))
        ]

    answered-SentAtMost :
        (n : ℕ) (next : Bytes → Collected → Paged Book → Act (Paged Book × Option Bytes))
        (acc : Collected) (out : Paged Book) (r : Result (Paged Book)) (v : World)
        → ((cursor : Bytes) (acc' : Collected) (out' : Paged Book)
            → SentAtMost n v (next cursor acc' out' v).1)
        → SentAtMost n v
            (on_result {B = Act (Paged Book × Option Bytes)} r
              (λ e. pure (out, some e))
              (λ page. with_page env lib c p next acc page)
              v).1
    answered-SentAtMost n next acc out (ok page) v h = with_page-SentAtMost n next acc page v h
    answered-SentAtMost n next acc out (err e) v h =
        SentAtMost-weaken 0 n v v (omega arith) (none_sent v)

    fan_out-SentAtMost :
        (n : ℕ) (cursor : Bytes) (acc : Collected) (out : Paged Book) (w : World)
        → SentAtMost n w (fan_out env lib c p n cursor acc out w).1
    unfolding fan_out ◌>>=◌
    fan_out-SentAtMost zero cursor acc out w = none_sent w
    fan_out-SentAtMost (suc n) cursor acc out w =
        let at : ListParams = record p { cursor = cursor } in
        let (answer, v) = list_books env lib c at w in
        SentAtMost-weaken (1 + n) (suc n) _ _ (omega arith) (
          SentAtMost-trans 1 n w v _ (list_books-SentAtMost at w) (
            answered-SentAtMost n (fan_out env lib c p n) acc out answer v
              (λ cursor' acc' out'. fan_out-SentAtMost n cursor' acc' out' v)))

    -- ListBooksDeduped sends at most `maxFanout` requests, or 10, and leaves the table.
    pub list_books_deduped-SentAtMost :
        (max_fanout : ℤ) (w : World)
        → SentAtMost (or_default max_fanout 10) w (list_books_deduped env lib c p max_fanout w).1
    unfolding list_books_deduped
    list_books_deduped-SentAtMost max_fanout w =
        fan_out-SentAtMost (or_default max_fanout 10) p.cursor _ _ w
