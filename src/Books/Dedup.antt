-- ===== src/Books/Dedup.antt =====
-- ListBooksDeduped of internal/bookwarehouse/catalog.go: pages are fetched until enough books with
-- different keys are there.
pub mod Collect
pub mod Rounds
pub mod Sent
use continuum_plugin_bookwar.Prelude.{
  ℕ, zero, suc, ◌≡◌, refl, Bool, true, false, ◌&&◌, ◌||◌, Option, none, some, List, [], ◌∷◌, ◌++◌,
  Bytes, eqb, ltb, leb, ℤ, pos, length, if◌then◌else◌,
}
use continuum_plugin_bookwar.Result.{Result, ok, err}
use continuum_plugin_bookwar.World.{Env, Act, pure, ◌>>=◌, on_result}
use continuum_plugin_bookwar.Upstream.{Client}
use continuum_plugin_bookwar.Books.Types.{Book, Paged, ListParams, Codec}
use continuum_plugin_bookwar.Books.Key.{dedup_key}
use continuum_plugin_bookwar.Books.Listing.{above_zero, list_books}

-- `==` of two Go strings
unfoldable pub same_bytes : Bytes → Bytes → Bool
same_bytes [] [] = true
same_bytes [] (d ∷ t) = false
same_bytes (c ∷ s) [] = false
same_bytes (c ∷ s) (d ∷ t) = eqb c d && same_bytes s t

-- `_, dup := seen[key]`
unfoldable pub is_seen : Bytes → List Bytes → Bool
unfolding same_bytes
is_seen key [] = false
is_seen key (k ∷ seen) = same_bytes key k || is_seen key seen

-- the set `seen` and `out.Items`
pub record Collected : Type 0 where
  pub seen : List Bytes
  pub items : List Book

-- the body of the loop over one page's books
unfoldable pub add_book : Codec → Collected → Book → Collected
unfolding is_seen
add_book lib acc b =
    let key = dedup_key lib b in
    if is_seen key acc.seen
    then acc
    else record { seen = key ∷ acc.seen; items = acc.items ++ b ∷ [] }

unfoldable pub add_books : Codec → Collected → List Book → Collected
unfolding add_book
add_books lib acc [] = acc
add_books lib acc (b ∷ bs) = add_books lib (add_book lib acc b) bs

-- `if n <= 0 { n = default }`
unfoldable pub or_default : ℤ → ℕ → ℕ
or_default n default = if ltb 0 (above_zero n) then above_zero n else default

-- the page size is reached, or upstream has no more pages
unfoldable pub is_enough : ℕ → List Book → Bytes → Bool
is_enough target items [] = true
is_enough target items (c ∷ cursor) = leb target (length items)

abbrev pub nothing : Collected
nothing = record { seen = []; items = [] }

abbrev pub no_page : Paged Book
no_page = record { items = []; next_cursor = []; total = pos 0 }

module _ (env : Env) (lib : Codec) (c : Client) (p : ListParams) where
  -- what is done with a page; `next` goes on at its next cursor
  unfoldable pub with_page :
      (Bytes → Collected → Paged Book → Act (Paged Book × Option Bytes))
      → Collected
      → Paged Book
      → Act (Paged Book × Option Bytes)
  unfolding add_books is_enough or_default
  with_page next acc page =
      let acc' = add_books lib acc page.items in
      let out = record page { items = acc'.items } in
      if is_enough (or_default p.limit 50) acc'.items page.next_cursor
      then pure (out, none)
      else next page.next_cursor acc' out

  -- At most `rounds` more pages, from the one at `cursor`; `out` is what the pages before gave.
  unfoldable pub fan_out : ℕ → Bytes → Collected → Paged Book → Act (Paged Book × Option Bytes)
  unfolding with_page
  fan_out zero cursor acc out = pure (out, none)
  fan_out (suc rounds) cursor acc out = do
    answer ← list_books env lib c (record p { cursor = cursor })
    on_result answer (λ e. pure (out, some e)) (λ page. with_page (fan_out rounds) acc page)

  unfoldable pub list_books_deduped : ℤ → Act (Paged Book × Option Bytes)
  unfolding fan_out or_default
  list_books_deduped max_fanout = fan_out (or_default max_fanout 10) p.cursor nothing no_page
