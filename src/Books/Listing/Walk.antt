-- ===== src/Books/Listing/Walk.antt =====
-- The pages that a reader gets who follows the cursors to the end.
use continuum_plugin_bookwar.Prelude.{
  ℕ, zero, suc, ◌+◌, ◌<◌, ◌≤◌, ◌≡◌, ◌≢◌, refl, sym, List, [], ◌∷◌, Bytes, pos, max_int, atoi, itoa,
  arith,
}
use continuum_plugin_bookwar.Books.Types.{UpstreamPage, ListParams}
use continuum_plugin_bookwar.Books.Listing.{above_zero, requested_page, next_page, next_cursor}
use continuum_plugin_bookwar.Books.Listing.Cursor.{requested_page-next_page}

-- n, n + 1, ...: so many numbers
abbrev pub count_from : ℕ → ℕ → List ℕ
count_from n zero = []
count_from n (suc k) = n ∷ count_from (suc n) k

requested_page_nil : requested_page [] ≡ 1
unfolding requested_page atoi
requested_page_nil = refl

asks_later : (n : ℕ) (s : Bytes) → 0 < n → requested_page s ≡ suc n → s ≢ []
asks_later n [] h e = absurd (omega (arith, requested_page_nil, e))
asks_later n (c ∷ s) h e = λ e. cc

module _ (p : ListParams) (page : UpstreamPage) where
  -- The page numbers that are asked for from a cursor on, each at the cursor of the answer before,
  -- when every answer has the page counts of `page`.
  pub data Walk : Bytes → List ℕ → Type 0 where
    last :
        {cursor : Bytes}
        → next_cursor (record p { cursor = cursor }) page ≡ []
        → Walk cursor (requested_page cursor ∷ [])
    onward :
        {cursor next : Bytes} {ns : List ℕ}
        → next_cursor (record p { cursor = cursor }) page ≡ next
        → next ≢ []
        → Walk next ns
        → Walk cursor (requested_page cursor ∷ ns)

  module _ (total : ℕ) (counted : page.total_pages ≡ pos total) (fits : total ≤ max_int) where
    next_cursor-last :
        (cursor : Bytes)
        → 0 < total
        → requested_page cursor ≡ total
        → next_cursor (record p { cursor = cursor }) page ≡ []
    unfolding next_cursor above_zero
    next_cursor-last cursor some_pages h = ground arith

    next_cursor-onward :
        (cursor : Bytes)
        → requested_page cursor < total
        → next_cursor (record p { cursor = cursor }) page ≡ itoa (next_page (requested_page cursor))
    unfolding next_cursor above_zero
    next_cursor-onward cursor h = ground arith

    Walk-from :
        (k n : ℕ) (cursor : Bytes)
        → requested_page cursor ≡ n
        → 0 < n
        → n + k ≡ total
        → Walk cursor (count_from n (suc k))
    Walk-from zero n cursor h positive sum =
        rw (sym h) (last (next_cursor-last cursor (omega arith) (omega arith)))
    Walk-from (suc k) n cursor h positive sum =
        let next = requested_page-next_page (requested_page cursor) (omega arith) in
        rw (sym h) (
          onward (next_cursor-onward cursor (omega arith))
            (asks_later (requested_page cursor) _ (omega arith) next)
            (Walk-from k (suc (requested_page cursor)) (itoa (next_page (requested_page cursor)))
              next (omega arith) (omega arith)))

    Walk-first : (t : ℕ) → total ≡ suc t → Walk [] (count_from 1 (suc t))
    Walk-first t e = Walk-from t 1 [] requested_page_nil (omega arith) (omega (arith, e))

    counted_from : (n : ℕ) → total ≡ n → 0 < n → Walk [] (count_from 1 n)
    counted_from zero e h = absurd (omega (arith, h))
    counted_from (suc t) e h = Walk-first t e

    -- When upstream reports a page count of at least 1, a reader who starts with no cursor and
    -- follows the cursors gets each of the pages 1, 2, ... up to that count once, and then an
    -- empty cursor.
    pub Walk-count_from : 0 < total → Walk [] (count_from 1 total)
    Walk-count_from some_pages = counted_from total refl some_pages
