-- ===== src/Books/Listing.antt =====
-- ListBooks and GetBook of internal/bookwarehouse/catalog.go.
pub mod Cursor
pub mod Walk
use continuum_plugin_bookwar.Prelude.{
  ℕ, zero, suc, ◌+◌, ◌≡◌, refl, String, Bool, Option, none, some, List, [], ◌∷◌, ◌++◌, map, Bytes,
  codes, utf8, ltb, leb, ℤ, pos, negsuc, max_int, itoa, atoi, length, take, ◌==◌, if◌then◌else◌,
}
use continuum_plugin_bookwar.Result.{Result, ok, err}
use continuum_plugin_bookwar.World.{Env, Act, pure, ◌>>=◌, on_result}
use continuum_plugin_bookwar.Url.{path_escape, Values, set_given, encode}
use continuum_plugin_bookwar.Upstream.{Client, base_url_of, cover_size, get}
use continuum_plugin_bookwar.Books.Types.{
  Book, Paged, File, BookDetail, UpstreamBook, UpstreamPage, UpstreamDetail, ListParams, Codec,
}

-- an integer where the code only asks whether it is above 0, and uses it when it is
unfoldable pub above_zero : ℤ → ℕ
above_zero (pos n) = n
above_zero (negsuc n) = 0

-- the given values of ListParams, without the search text
filters : ListParams → Values
unfolding above_zero
filters p = set_given "tag" (utf8 p.tag) (
    set_given "genre" (utf8 p.genre) (
      set_given "series" (utf8 p.series) (
        set_given "author" (utf8 p.author) (
          set_given "order" (utf8 p.order) (
            set_given "sort" (utf8 p.sort) (
              set_given "limit" (if ltb 0 (above_zero p.limit) then itoa p.limit else [])
                (set_given "page" p.cursor [])))))))

-- what is asked for, after the base URL
unfoldable pub list_path : ListParams → Bytes
unfolding filters
list_path p =
    let q = set_given "q" (utf8 p.query) (filters p) in
    let path = if p.query == "" then "/api/v1/books" else "/api/v1/books/search" in
    codes path ++ (b'?' ∷ encode q)

-- the number in a cursor, when it is above 0
unfoldable pub page_of : Option ℤ → ℕ
page_of none = 1
page_of (some (pos zero)) = 1
page_of (some (pos (suc n))) = suc n
page_of (some (negsuc n)) = 1

-- the page that a cursor asks for; `Atoi` refuses the empty cursor
unfoldable pub requested_page : Bytes → ℕ
unfolding page_of
requested_page cursor = page_of (atoi cursor)

-- `requested + 1` on int64
unfoldable pub next_page : ℕ → ℤ
next_page n = if ltb n max_int then pos (n + 1) else negsuc max_int

unfoldable pub next_cursor : ListParams → UpstreamPage → Bytes
unfolding above_zero requested_page next_page
next_cursor p page =
    let requested = requested_page p.cursor in
    let total = above_zero page.total_pages in
    let limit = above_zero p.limit in
    if ltb 0 total
    then if ltb requested total then itoa (next_page requested) else []
    else if ltb 0 limit
    then if leb limit (length page.books) then itoa (next_page requested) else []
    else []

-- a field that is left out when its text is empty
one_given : String → List String
one_given s = if s == "" then [] else s ∷ []

-- the names of `Authors`, else the one of `Author`
authors_of : List String → String → List String
unfolding one_given
authors_of [] author = one_given author
authors_of (a ∷ more) author = a ∷ more

number_or_zero : Option ℤ → ℤ
number_or_zero none = pos 0
number_or_zero (some n) = n

-- the year of a date's first four bytes, 0 when there is none
year_of : Bytes → ℤ
year_of date = if leb 4 (length date) then number_or_zero (atoi (take 4 date)) else pos 0

unfoldable pub cover_path : Client → String → Bytes
cover_path c id = codes "/cover/" ++ (path_escape id ++ (b'/' ∷ utf8 (cover_size c)))

-- the Book of one element of the answer
unfoldable pub book_of : Client → UpstreamBook → Book
unfolding cover_path one_given authors_of year_of number_or_zero
book_of c ub = record {
  id = ub.id;
  title = ub.title;
  authors = authors_of ub.authors ub.author;
  isbn = ub.isbn13;
  publisher = ub.publisher;
  series = ub.series_name;
  series_index = ub.series_index;
  year = year_of ub.published_at;
  language = ub.language;
  cover_url = if ub.has_cover then cover_path c ub.id else [];
  has_cover = ub.has_cover;
  rating = 0;
  formats = one_given ub.file_format;
}

-- the page of an answer
unfoldable pub page_from : Client → ListParams → UpstreamPage → Paged Book
unfolding next_cursor book_of
page_from c p page = record {
  items = map (book_of c) page.books;
  next_cursor = next_cursor p page;
  total = page.total_items;
}

unfoldable pub detail_from : Client → UpstreamDetail → BookDetail
unfolding book_of
detail_from c d = record {
  book = book_of c d.summary;
  description = d.description;
  genres = d.genres;
  tags = d.tags;
  files =
      if d.summary.file_format == ""
      then []
      else (record { format = d.summary.file_format; size_bytes = d.file_size; url = [] } ∷ []);
}

module _ (env : Env) (lib : Codec) (c : Client) where
  pub read_page : ListParams → Bytes → Result (Paged Book)
  unfolding page_from
  read_page p body =
      on_result (lib.unmarshal_page body) (λ e. err (codes "decode books: " ++ e))
        (λ page. ok (page_from c p page))

  unfoldable pub list_books : ListParams → Act (Result (Paged Book))
  unfolding list_path read_page
  list_books p = do
    answer ← get env c (list_path p)
    on_result answer (λ e. pure (err e)) (λ body. pure (read_page p body))

  read_detail : Bytes → Result BookDetail
  unfolding detail_from
  read_detail body =
      on_result (lib.unmarshal_detail body) (λ e. err (codes "decode book: " ++ e))
        (λ d. ok (detail_from c d))

  unfoldable pub get_book : String → Act (Result BookDetail)
  unfolding read_detail
  get_book id = do
    answer ← get env c (codes "/api/v1/books/" ++ path_escape id)
    on_result answer (λ e. pure (err e)) (λ body. pure (read_detail body))

  unfoldable pub file_url : String → String → Bytes
  file_url id format =
      base_url_of c
      ++ (codes "/api/v1/books/" ++ (path_escape id ++ (codes "/files/" ++ path_escape format)))

  unfoldable pub upstream_cover_url : String → String → Bytes
  upstream_cover_url id size =
      base_url_of c
      ++ (codes "/api/v1/books/" ++ (path_escape id ++ (codes "/cover/" ++ path_escape size)))
