-- ===== src/Catalog/Handlers.antt =====
-- List, Search, Detail and RequestSnapshot of internal/catalog/handler.go, and Snapshot of
-- internal/request/handler.go.
use continuum_plugin_bookwar.Prelude.{
  ℕ, ◌≡◌, refl, ap, ◌≢◌, Bool, true, false, not, Option, none, some, map, Bytes, utf8, ◌==◌, ℤ, pos,
  negsuc, eqb, atoi, if◌then◌else◌, arith, Bool-cases, inl, inr,
}
use continuum_plugin_bookwar.World.{Env, World, Act, pure, ◌>>=◌, on_result, on_error}
use continuum_plugin_bookwar.Upstream.{Client, get_monitoring}
use continuum_plugin_bookwar.Books.Types.{Book, Paged, ListParams, Codec}
use continuum_plugin_bookwar.Books.Listing.{get_book, above_zero}
use continuum_plugin_bookwar.Books.Dedup.{no_page, or_default, list_books_deduped}
use continuum_plugin_bookwar.Books.Dedup.Sent.{SentAtMost, list_books_deduped-SentAtMost}
use continuum_plugin_bookwar.Catalog.Types.{
  to_summary, to_detail, HttpRequest, Response, page, detail, snapshot, json, http_error,
  upstream_error,
}
use continuum_plugin_bookwar.Catalog.Params.{parse_list_params}

abbrev pub synthetic_library_id : ℕ
synthetic_library_id = 1

-- a library id that parses, and is not ours; ParseInt refuses ""
unfoldable pub is_foreign : Option ℤ → Bool
is_foreign none = false
is_foreign (some (pos n)) = not (eqb n synthetic_library_id)
is_foreign (some (negsuc n)) = true

unfoldable pub write_envelope : Paged Book → Response
unfolding to_summary
write_envelope p =
    json 200 (
      page
        (record { items = map to_summary p.items; next_cursor = p.next_cursor; total = p.total }))

unfoldable pub list_params : HttpRequest → ListParams
unfolding parse_list_params
list_params r = record (parse_list_params r) {
  author = r.query "author";
  series = r.query "series";
  genre = r.query "genre";
  tag = r.query "tag";
}

some-is_foreign : (id : ℤ) → id ≢ pos 1 → is_foreign (some id) ≡ true
unfolding is_foreign
some-is_foreign (pos n) ne = let other : n ≢ 1 = λ e. ne (ap pos e) in ground arith
some-is_foreign (negsuc n) ne = refl

module _ (env : Env) (lib : Codec) (c : Client) where
  unfoldable pub list_page : ListParams → Act Response
  unfolding write_envelope upstream_error
  list_page p = do
    out ← list_books_deduped env lib c p (pos 5)
    on_error out.1 (λ e. pure upstream_error) (pure (write_envelope out.0))

  unfoldable pub list : HttpRequest → Act Response
  unfolding is_foreign list_params write_envelope list_page
  list r =
      if is_foreign (atoi (utf8 (r.query "library_id")))
      then pure (write_envelope no_page)
      else list_page (list_params r)

  unfoldable pub search : HttpRequest → Act Response
  unfolding list_page
  search r = list_page (record (parse_list_params r) { query = r.query "q" })

  unfoldable pub show_detail : HttpRequest → Act Response
  unfolding upstream_error to_detail
  show_detail r = if r.url_param "id" == "" then pure (http_error 400 "id required") else do
    answer ← get_book env lib c (r.url_param "id")
    on_result answer (λ e. pure upstream_error) (λ d. pure (json 200 (detail (to_detail d))))

  -- the two handlers differ in the text of a failure
  unfoldable pub snapshot_or : Response → HttpRequest → Act Response
  snapshot_or failure r =
      if r.url_param "external_id" == "" then pure (http_error 400 "external_id required") else do
        answer ← get_monitoring env c (r.url_param "external_id")
        on_result answer (λ e. pure failure) (λ s. pure (json 200 (snapshot s.id s.status)))

  unfoldable pub request_snapshot : HttpRequest → Act Response
  unfolding snapshot_or upstream_error
  request_snapshot r = snapshot_or upstream_error r

  unfoldable pub request_handler_snapshot : HttpRequest → Act Response
  unfolding snapshot_or
  request_handler_snapshot r = snapshot_or (http_error 502 "upstream request failed") r

  written-SentAtMost :
      (n : ℕ) (o : Option Bytes) (failure success : Response) (w v : World)
      → SentAtMost n w v
      → SentAtMost n w (on_error {B = Act Response} o (λ e. pure failure) (pure success) v).1
  written-SentAtMost n none failure success w v h = h
  written-SentAtMost n (some e) failure success w v h = h

  list_page-SentAtMost : (p : ListParams) (w : World) → SentAtMost 5 w (list_page p w).1
  unfolding list_page ◌>>=◌ or_default above_zero
  list_page-SentAtMost p w =
      let (out, v) = list_books_deduped env lib c p (pos 5) w in
      written-SentAtMost 5 out.1 upstream_error (write_envelope out.0) w v
        (list_books_deduped-SentAtMost env lib c p (pos 5) w)

  -- List and Search send at most five requests upstream each, and leave the table.
  pub list-search-SentAtMost :
      (r : HttpRequest) (w : World) → SentAtMost 5 w (list r w).1 × SentAtMost 5 w (search r w).1
  unfolding list search
  list-search-SentAtMost r w = (
    elim (Bool-cases (is_foreign (atoi (utf8 (r.query "library_id"))))) [
      | inl foreign ↦ rw foreign (record { count = omega arith; table = refl })
      | inr ours ↦ rw ours (list_page-SentAtMost (list_params r) w)
    ],
    list_page-SentAtMost (record (parse_list_params r) { query = r.query "q" }) w,
  )

  -- A List for a library whose id parses and is not 1 answers with an empty page, and changes
  -- nothing: no request is sent upstream.
  pub list_foreign :
      (r : HttpRequest) (id : ℤ) (w : World)
      → atoi (utf8 (r.query "library_id")) ≡ some id
      → id ≢ pos 1
      → list r w ≡ (write_envelope no_page, w)
  unfolding list
  list_foreign r id w h ne = rw (h, some-is_foreign id ne) refl
