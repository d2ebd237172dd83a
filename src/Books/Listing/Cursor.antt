-- ===== src/Books/Listing/Cursor.antt =====
-- Cursors that are followed.
use native.Mathlib.Numerals.{add-one}
use continuum_plugin_bookwar.Prelude.{
  lt→ltb, ℕ, suc, ◌+◌, ◌<◌, ◌≡◌, refl, ◌∙◌, ap, ◌⊎◌, inl, inr, [], ◌++◌, codes, Bytes, pos, max_int,
  itoa, atoi-itoa, arith,
}
use mathlib.Core.Path.{subst}
use continuum_plugin_bookwar.Result.{Result, ok, err, ok-injective}
use continuum_plugin_bookwar.World.{Env, World, Act, pure, ◌>>=◌, on_result}
use continuum_plugin_bookwar.Upstream.{Client, get}
use continuum_plugin_bookwar.Books.Types.{Book, Paged, UpstreamPage, ListParams, Codec}
use continuum_plugin_bookwar.Books.Listing.{
  page_of, list_path, requested_page, next_page, next_cursor, page_from, read_page, list_books,
}

pub requested_page-next_page : (n : ℕ) → n < max_int → requested_page (itoa (next_page n)) ≡ suc n
unfolding requested_page next_page
requested_page-next_page n h =
    rw (lt→ltb n max_int h)
      (rw (atoi-itoa (pos (n + 1)) (omega (arith, h))) (unfold page_of in rw (add-one n) refl))

next_cursor-cases :
    (p : ListParams) (page : UpstreamPage)
    → (next_cursor p page ≡ []) ⊎ (next_cursor p page ≡ itoa (next_page (requested_page p.cursor)))
unfolding next_cursor
next_cursor-cases p page = ground arith

page_from-cursor :
    (c : Client) (p : ListParams) (page : UpstreamPage)
    → requested_page p.cursor < max_int
    → ((page_from c p page).next_cursor ≡ [])
      ⊎ (requested_page (page_from c p page).next_cursor ≡ suc (requested_page p.cursor))
unfolding page_from
page_from-cursor c p page h = elim (next_cursor-cases p page) [
  | inl last ↦ inl last
  | inr more ↦ inr (ap requested_page more ∙ requested_page-next_page (requested_page p.cursor) h)
]

-- What holds of the cursor in a result of ListBooks for the page that `cursor` asks for.
abbrev Follows : Bytes → Paged Book → Type 0
Follows cursor page =
    (page.next_cursor ≡ []) ⊎ (requested_page page.next_cursor ≡ suc (requested_page cursor))

module _ (env : Env) (lib : Codec) (c : Client) (p : ListParams) where
  module _ (below : requested_page p.cursor < max_int) (page : Paged Book) where
    decoded-Follows :
        (r : Result UpstreamPage)
        → on_result {B = Result (Paged Book)} r
            (λ e. err (codes "decode books: " ++ e))
            (λ up. ok (page_from c p up))
          ≡ ok page
        → Follows p.cursor page
    decoded-Follows (ok up) h =
        subst (Follows p.cursor) (ok-injective h) (page_from-cursor c p up below)
    decoded-Follows (err e) h = cc

    answer-Follows :
        (r : Result Bytes) (v : World)
        → (on_result {B = Act (Result (Paged Book))} r
            (λ e. pure (err e))
            (λ body. pure (read_page env lib c p body))
            v).0
          ≡ ok page
        → Follows p.cursor page
    unfolding read_page
    answer-Follows (ok body) v h = decoded-Follows (lib.unmarshal_page body) h
    answer-Follows (err e) v h = cc

  -- When ListBooks succeeds for a page below the largest int64, the cursor that it returns is
  -- empty, or it asks for the page after the one that was asked for.
  pub list_books-cursor :
      (w : World) (page : Paged Book)
      → requested_page p.cursor < max_int
      → (list_books env lib c p w).0 ≡ ok page
      → (page.next_cursor ≡ []) ⊎ (requested_page page.next_cursor ≡ suc (requested_page p.cursor))
  unfolding list_books ◌>>=◌
  list_books-cursor w page below h =
      let (answer, v) = get env c (list_path p) w in answer-Follows below page answer v h
