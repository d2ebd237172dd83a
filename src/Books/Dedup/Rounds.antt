-- ===== src/Books/Dedup/Rounds.antt =====
-- The pages that the fan-out fetches, and what it makes of them.
use continuum_plugin_bookwar.Prelude.{
  ℕ, zero, suc, ◌≤◌, ◌≡◌, refl, sym, ap, ◌∙◌, ◌⊎◌, inl, inr, true, Bool-cases, Option, none, some,
  List, [], ◌∷◌, ◌++◌, Bytes, ℤ, length, arith,
}
use mathlib.Core.List.{append-nil}
use continuum_plugin_bookwar.Result.{Result, ok, err}
use continuum_plugin_bookwar.World.{Env, World, pure, ◌>>=◌, on_result}
use continuum_plugin_bookwar.Upstream.{Client}
use continuum_plugin_bookwar.Books.Types.{Book, Paged, ListParams, Codec}
use continuum_plugin_bookwar.Books.Listing.{list_books}
use continuum_plugin_bookwar.Books.Dedup.{
  Collected, add_books, or_default, is_enough, with_page, fan_out, list_books_deduped, nothing,
  no_page,
}
use continuum_plugin_bookwar.Books.Dedup.Collect.{OnePerKey, add_books-OnePerKey}

-- the books of the pages, in order
abbrev pub all_books : List (Paged Book) → List Book
all_books [] = []
all_books (page ∷ pages) = page.items ++ all_books pages

-- the cursor and the total of the last page
abbrev pub last_page : Paged Book → List (Paged Book) → Paged Book
last_page out [] = out
last_page out (page ∷ pages) = last_page page pages

one_more {ℓ} : {A : Type ℓ} {n m : ℕ} → (n ≡ m) ⊎ A → (suc n ≡ suc m) ⊎ A
one_more (inl e) = inl (ap suc e)
one_more (inr a) = inr a

module _ (env : Env) (lib : Codec) (c : Client) (p : ListParams) where
  -- From the page at a cursor on, the pages were fetched one after the other, each at the cursor
  -- that the page before gave, until the code stopped or a request failed.
  pub data Fetched : Bytes → World → List (Paged Book) → Option Bytes → World → Type 0 where
    stopped : {cursor : Bytes} {w : World} → Fetched cursor w [] none w
    failed :
        {cursor e : Bytes} {w v : World}
        → list_books env lib c (record p { cursor = cursor }) w ≡ (err e, v)
        → Fetched cursor w [] (some e) v
    fetched :
        {cursor : Bytes} {page : Paged Book} {pages : List (Paged Book)} {e : Option Bytes}
        {w v u : World}
        → list_books env lib c (record p { cursor = cursor }) w ≡ (ok page, v)
        → Fetched page.next_cursor v pages e u
        → Fetched cursor w (page ∷ pages) e u

  -- What is returned after so many rounds at most, for the pages that were fetched.
  pub record FansOut (rounds : ℕ) (cursor : Bytes) (acc : Collected) (out : Paged Book) (w : World)
      (result : (Paged Book × Option Bytes) × World) : Type 0 where
    pub pages : List (Paged Book)
    pub trace : Fetched cursor w pages result.0.1 result.1
    pub items : result.0.0.items ≡ (add_books lib acc (all_books pages)).items
    pub next_cursor : result.0.0.next_cursor ≡ (last_page out pages).next_cursor
    pub total : result.0.0.total ≡ (last_page out pages).total
    pub bounded : length pages ≤ rounds
    pub complete :
        result.0.1 ≡ none
        → (length pages ≡ rounds)
          ⊎ (is_enough (or_default p.limit 50) result.0.0.items result.0.0.next_cursor ≡ true)

  last_page_cursor :
      (out out' : Paged Book) (pages : List (Paged Book))
      → out'.next_cursor ≡ out.next_cursor
      → (last_page out' pages).next_cursor ≡ (last_page out pages).next_cursor
  last_page_cursor out out' [] h = h
  last_page_cursor out out' (page ∷ pages) h = refl

  last_page_total :
      (out out' : Paged Book) (pages : List (Paged Book))
      → out'.total ≡ out.total
      → (last_page out' pages).total ≡ (last_page out pages).total
  last_page_total out out' [] h = h
  last_page_total out out' (page ∷ pages) h = refl

  add_books-append :
      (xs ys : List Book) (acc : Collected)
      → add_books lib acc (xs ++ ys) ≡ add_books lib (add_books lib acc xs) ys
  unfolding add_books
  add_books-append [] ys acc = refl
  add_books-append (x ∷ xs) ys acc = add_books-append xs ys _

  page_FansOut :
      (rounds : ℕ) (cursor : Bytes) (acc : Collected) (out page : Paged Book) (w v : World)
      → list_books env lib c (record p { cursor = cursor }) w ≡ (ok page, v)
      → ((acc' : Collected) (out' : Paged Book)
          → out'.items ≡ acc'.items
          → FansOut rounds page.next_cursor acc' out' v
              (fan_out env lib c p rounds page.next_cursor acc' out' v))
      → FansOut
          (suc rounds)
          cursor
          acc
          out
          w
          (with_page env lib c p (fan_out env lib c p rounds) acc page v)
  unfolding with_page
  page_FansOut rounds cursor acc out page w v h rest =
      let acc' : Collected = add_books lib acc page.items in
      let out' : Paged Book = record page { items = acc'.items } in
      elim (Bool-cases (is_enough (or_default p.limit 50) acc'.items page.next_cursor)) [
        | inl enough ↦ rw enough (record {
          pages = page ∷ [];
          trace = fetched h stopped;
          items =
              ap (λ (bs : List Book). (add_books lib acc bs).items) (sym (append-nil page.items));
          next_cursor = refl;
          total = refl;
          bounded = omega arith;
          complete = λ _. inr enough;
        })
        | inr more ↦
            let r = rest acc' out' refl in
            rw more (record {
              pages = page ∷ r.pages;
              trace = fetched h r.trace;
              items =
                  r.items
                  ∙ ap (λ (a : Collected). a.items)
                      (sym (add_books-append page.items (all_books r.pages) acc));
              next_cursor = r.next_cursor ∙ last_page_cursor page out' r.pages refl;
              total = r.total ∙ last_page_total page out' r.pages refl;
              bounded = omega (arith, r.bounded);
              complete = λ e. one_more (r.complete e);
            })
      ]

  answer_FansOut :
      (rounds : ℕ) (cursor : Bytes) (acc : Collected) (out : Paged Book) (w v : World)
      (answer : Result (Paged Book))
      → list_books env lib c (record p { cursor = cursor }) w ≡ (answer, v)
      → out.items ≡ acc.items
      → ((page : Paged Book) (acc' : Collected) (out' : Paged Book)
          → out'.items ≡ acc'.items
          → FansOut rounds page.next_cursor acc' out' v
              (fan_out env lib c p rounds page.next_cursor acc' out' v))
      → FansOut (suc rounds) cursor acc out w (
          on_result answer
            (λ e. pure (out, some e))
            (λ page. with_page env lib c p (fan_out env lib c p rounds) acc page)
            v)
  unfolding add_books
  answer_FansOut rounds cursor acc out w v (ok page) h same rest =
      page_FansOut rounds cursor acc out page w v h (rest page)
  answer_FansOut rounds cursor acc out w v (err e) h same rest = record {
    pages = [];
    trace = failed h;
    items = same;
    next_cursor = refl;
    total = refl;
    bounded = omega arith;
    complete = λ none. cc;
  }

  fan_out_lem :
      (rounds : ℕ) (cursor : Bytes) (acc : Collected) (out : Paged Book) (w : World)
      → out.items ≡ acc.items
      → FansOut rounds cursor acc out w (fan_out env lib c p rounds cursor acc out w)
  unfolding fan_out ◌>>=◌ add_books
  fan_out_lem zero cursor acc out w h = record {
    pages = [];
    trace = stopped;
    items = h;
    next_cursor = refl;
    total = refl;
    bounded = omega arith;
    complete = λ _. inl refl;
  }
  fan_out_lem (suc rounds) cursor acc out w h =
      let (answer, v) = list_books env lib c (record p { cursor = cursor }) w in
      answer_FansOut rounds cursor acc out w v answer refl h
        (λ page acc' out'. fan_out_lem rounds page.next_cursor acc' out' v)

  -- ListBooksDeduped fetches pages one after the other, each at the cursor that the page before
  -- gave, at most `maxFanout` of them, or 10. It returns the cursor and the total of the last one,
  -- and the fold of `add_books` over the books of all. When it reports no error, it has fetched
  -- that many pages, or the page size is reached, or the last page has no next cursor.
  pub list_books_deduped-FansOut :
      (max_fanout : ℤ) (w : World)
      → FansOut
          (or_default max_fanout 10)
          p.cursor
          nothing
          no_page
          w
          (list_books_deduped env lib c p max_fanout w)
  unfolding list_books_deduped
  list_books_deduped-FansOut max_fanout w =
      fan_out_lem (or_default max_fanout 10) p.cursor nothing no_page w refl

  -- What ListBooksDeduped returns, after an error too, has one book for each key of the fetched
  -- books: its books are fetched ones, in the order of the pages, no two of them have one key, and
  -- each fetched book has the key of one of them.
  pub list_books_deduped-OnePerKey :
      (max_fanout : ℤ) (w : World)
      → let r = list_books_deduped env lib c p max_fanout w in
        (pages : List (Paged Book)) × Fetched p.cursor w pages r.0.1 r.1
        × OnePerKey lib (all_books pages) r.0.0.items
  list_books_deduped-OnePerKey max_fanout w =
      let f = list_books_deduped-FansOut max_fanout w in
      (f.pages, f.trace, rw f.items (add_books-OnePerKey lib (all_books f.pages)))
