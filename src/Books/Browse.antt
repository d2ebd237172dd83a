-- ===== src/Books/Browse.antt =====
-- internal/bookwarehouse/browse.go and external_search.go.
pub mod Year
use continuum_plugin_bookwar.Prelude.{
  ℕ, ◌+◌, ◌≡◌, refl, String, Bool, true, false, ◌||◌, ◌&&◌, not, Option, none, some, List, [], ◌∷◌,
  ◌++◌, map, Bytes, codes, utf8, ltb, leb, eqb, ℤ, pos, negsuc, itoa, atoi, if◌then◌else◌,
}
use continuum_plugin_bookwar.Result.{Result, ok, err}
use continuum_plugin_bookwar.World.{Env, Act, pure, ◌>>=◌, on_result}
use continuum_plugin_bookwar.Url.{set_value, set_given, encode}
use continuum_plugin_bookwar.Upstream.{Client, get}
use continuum_plugin_bookwar.Books.Types.{
  Paged, Facet, Genre, UpstreamGenre, UpstreamGenres, ExternalSearchHit, UpstreamHit, Codec,
}
use continuum_plugin_bookwar.Books.Listing.{above_zero}

abbrev pub no_facets : Paged Facet
no_facets = record { items = []; next_cursor = []; total = pos 0 }

-- upstream has no endpoint for these three
unfoldable pub list_authors : Bytes → ℤ → Result (Paged Facet)
list_authors cursor limit = ok no_facets

unfoldable pub list_series : Bytes → ℤ → Result (Paged Facet)
list_series cursor limit = ok no_facets

unfoldable pub list_tags : Bytes → ℤ → Result (Paged Facet)
list_tags cursor limit = ok no_facets

-- `<` of two ints
unfoldable pub less_int : ℤ → ℤ → Bool
less_int (pos m) (pos n) = ltb m n
less_int (pos m) (negsuc n) = false
less_int (negsuc m) (pos n) = true
less_int (negsuc m) (negsuc n) = ltb n m

-- `n + 1` of an int that is below another one, so that it does not wrap
unfoldable pub next_int : ℤ → ℤ
next_int (pos n) = pos (n + 1)
next_int (negsuc ℕ.zero) = pos 0
next_int (negsuc (ℕ.suc n)) = negsuc n

-- `if limit > 0 { q.Set("limit", strconv.Itoa(limit)) }`
unfoldable pub limit_text : ℤ → Bytes
unfolding above_zero
limit_text limit = if ltb 0 (above_zero limit) then itoa limit else []

genres_path : Bytes → ℤ → Bytes
unfolding limit_text
genres_path cursor limit =
    codes "/api/v1/genres?"
    ++ encode (set_given "limit" (limit_text limit) (set_given "cursor" cursor []))

genre_of : UpstreamGenre → Genre
genre_of g = record { id = itoa g.id; name = g.name; slug = g.slug; count = g.book_count }

unfoldable pub genres_from : UpstreamGenres → Paged Genre
unfolding genre_of less_int next_int
genres_from u = record {
  items = map genre_of u.genres;
  next_cursor = if less_int u.page u.total_pages then itoa (next_int u.page) else [];
  total = u.total_items;
}

search_path : String → ℤ → Bytes
unfolding limit_text
search_path query limit =
    codes "/api/v1/search/external?"
    ++ encode (set_given "limit" (limit_text limit) (set_value "q" (utf8 query) []))

-- \d and \w of the regular expression, on ASCII
abbrev pub is_digit : ℕ → Bool
is_digit c = leb b'0' c && leb c b'9'

unfoldable pub is_word : ℕ → Bool
is_word c = is_digit c || (leb b'a' c && leb c b'z') || (leb b'A' c && leb c b'Z') || eqb c b'_'

-- \b between a digit and what follows
unfoldable pub starts_word : Bytes → Bool
unfolding is_word
starts_word [] = false
starts_word (c ∷ s) = is_word c

-- (\d{4})\b at the start of the text
unfoldable pub year_here : Bytes → Option Bytes
unfolding starts_word
year_here (a ∷ b ∷ c ∷ d ∷ s) =
    if is_digit a && is_digit b && is_digit c && is_digit d && not (starts_word s)
    then some (a ∷ b ∷ c ∷ d ∷ [])
    else none
year_here _ = none

-- The first match of \b(\d{4})\b; `inside` says that a word character stands before the text.
unfoldable pub find_year : Bool → Bytes → Option Bytes
unfolding year_here is_word
find_year inside [] = none
find_year inside (c ∷ s) =
    let later = find_year (is_word c) s in
    if inside then later else elim (year_here (c ∷ s)) [ some y ↦ some y | none ↦ later ]

unfoldable pub year_or_zero : Option ℤ → ℤ
year_or_zero none = pos 0
year_or_zero (some y) = y

year_of_match : Option Bytes → ℤ
unfolding year_or_zero
year_of_match none = pos 0
year_of_match (some digits) = year_or_zero (atoi digits)

unfoldable pub extract_year : String → ℤ
unfolding find_year year_of_match
extract_year s = year_of_match (find_year false (utf8 s))

-- `if p != nil { x = *p }`
unfoldable pub text_or_empty : Option String → String
text_or_empty none = ""
text_or_empty (some s) = s

year_given : Option String → ℤ
unfolding extract_year
year_given none = pos 0
year_given (some s) = extract_year s

unfoldable pub hit_of : UpstreamHit → ExternalSearchHit
unfolding text_or_empty year_given
hit_of h = record {
  source_id = "";
  source = h.source;
  title = h.title;
  authors = h.authors;
  year = year_given h.published_date;
  language = text_or_empty h.language;
  formats = [];
  size_bytes = pos 0;
  cover_url = text_or_empty h.cover_url;
}

module _ (env : Env) (lib : Codec) (c : Client) where
  read_genres : Bytes → Result (Paged Genre)
  unfolding genres_from
  read_genres body =
      on_result (lib.unmarshal_genres body) (λ e. err (codes "decode genres: " ++ e))
        (λ u. ok (genres_from u))

  unfoldable pub list_genres : Bytes → ℤ → Act (Result (Paged Genre))
  unfolding genres_path read_genres
  list_genres cursor limit = do
    answer ← get env c (genres_path cursor limit)
    on_result answer (λ e. pure (err e)) (λ body. pure (read_genres body))

  read_hits : Bytes → Result (List ExternalSearchHit)
  unfolding hit_of
  read_hits body =
      on_result (lib.unmarshal_hits body) (λ e. err (codes "decode external_search: " ++ e))
        (λ hits. ok (map hit_of hits))

  unfoldable pub external_search : String → ℤ → Act (Result (List ExternalSearchHit))
  unfolding search_path read_hits
  external_search query limit = do
    answer ← get env c (search_path query limit)
    on_result answer (λ e. pure (err e)) (λ body. pure (read_hits body))
