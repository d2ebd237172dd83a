-- ===== src/Examples/Books.antt =====
-- The theorems on the upstream catalogue at concrete data, and runs of the model.
use continuum_plugin_bookwar.Prelude.{
  ◌≡◌, ◌≢◌, refl, ◌↔◌, true, String, some, none, List, [], ◌∷◌, codes, pos, itoa, atoi, itoa_ℕ,
  arith,
}
use continuum_plugin_bookwar.Result.{ok}
use continuum_plugin_bookwar.World.{◌>>=◌, send}
use continuum_plugin_bookwar.Upstream.{get}
use continuum_plugin_bookwar.Books.Types.{
  Book, Paged, UpstreamBook, UpstreamPage, ListParams, Codec,
}
use continuum_plugin_bookwar.Books.Key.{normalize_runes, normalize_key, first_author, dedup_key}
use continuum_plugin_bookwar.Books.Key.Normal.{Spaced, Closed, normalize_runes_normal}
use continuum_plugin_bookwar.Books.Key.Same.{SameWork, dedup_key-eq_iff}
use continuum_plugin_bookwar.Books.Listing.{list_books, page_from, book_of, requested_page}
use continuum_plugin_bookwar.Books.Listing.Walk.{Walk, Walk-count_from}
use continuum_plugin_bookwar.Books.Dedup.{list_books_deduped, or_default, nothing, no_page}
use continuum_plugin_bookwar.Books.Dedup.Collect.{OnePerKey}
use continuum_plugin_bookwar.Books.Dedup.Rounds.{
  Fetched, FansOut, all_books, list_books_deduped-FansOut, list_books_deduped-OnePerKey,
}
use continuum_plugin_bookwar.Examples.Data.{calm, client, world}

abbrev edition : String → String → UpstreamBook
edition id title = record {
  id = id;
  title = title;
  author = "Jane Austen";
  authors = [];
  isbn13 = "";
  publisher = "";
  published_at = codes "1815-12-23";
  language = "en";
  has_cover = true;
  file_format = "epub";
  series_name = "";
  series_index = 0;
}

abbrev page : UpstreamPage
page = record {
  books = edition "b1" "Emma" ∷ edition "b2" " EMMA!" ∷ edition "b3" "Persuasion" ∷ [];
  total_items = pos 9;
  total_pages = pos 3;
}

abbrev pub lib : Codec
lib = record {
  unmarshal_page = λ _. ok page;
  unmarshal_detail = λ _. ok (record {
    summary = edition "b1" "Emma";
    file_size = pos 7;
    description = "";
    genres = [];
    tags = [];
  });
  unmarshal_genres = λ _. ok (record {
    genres = (record { id = pos 4; name = "Fantasy"; slug = "fantasy"; book_count = pos 2 }) ∷ [];
    page = pos 1;
    total_pages = pos 2;
    total_items = pos 3;
  });
  unmarshal_hits = λ _. ok (
      (record {
        title = "Emma";
        authors = [];
        published_date = some "Dec 1815";
        language = none;
        cover_url = none;
        source = "openlibrary";
      })
      ∷ []);
  format_float = itoa_ℕ;
}

abbrev params : ListParams
params = record {
  cursor = [];
  limit = pos 3;
  sort = "";
  order = "";
  query = "";
  author = "";
  series = "";
  genre = "";
  tag = "";
}

abbrev summary : String → String → Book
summary id title = book_of client (edition id title)

normalize_runes_normal_example :
    Spaced true (normalize_runes (codes "  War -- of WORLDS!"))
    × Closed (normalize_runes (codes "  War -- of WORLDS!"))
    × (normalize_runes (normalize_runes (codes "  War -- of WORLDS!"))
        ≡ normalize_runes (codes "  War -- of WORLDS!"))
normalize_runes_normal_example = normalize_runes_normal (codes "  War -- of WORLDS!")

titled : normalize_key "Emma" ≢ []
unfolding normalize_key
titled e = cc

titled_loudly : normalize_key " EMMA!" ≢ []
unfolding normalize_key
titled_loudly e = cc

dedup_key-eq_iff_example :
    (dedup_key lib (summary "b1" "Emma") ≡ dedup_key lib (summary "b2" " EMMA!"))
    ↔ SameWork lib (summary "b1" "Emma") (summary "b2" " EMMA!")
unfolding book_of
dedup_key-eq_iff_example =
    dedup_key-eq_iff lib (summary "b1" "Emma") (summary "b2" " EMMA!") titled titled_loudly

second_page : requested_page (codes "2") ≡ 2
unfolding requested_page atoi
second_page = refl

listed_second :
    (list_books calm lib client (record params { cursor = codes "2" }) (world [])).0
    ≡ ok (page_from client (record params { cursor = codes "2" }) page)
unfolding list_books get send ◌>>=◌ page_from
listed_second = refl

Walk-count_from_example : Walk params page [] (1 ∷ 2 ∷ 3 ∷ [])
Walk-count_from_example = Walk-count_from params page 3 refl (omega arith) (omega arith)

list_books_deduped-FansOut_example :
    FansOut calm lib client params
      (or_default (pos 5) 10)
      []
      nothing
      no_page
      (world [])
      (list_books_deduped calm lib client params (pos 5) (world []))
list_books_deduped-FansOut_example =
    list_books_deduped-FansOut calm lib client params (pos 5) (world [])

list_books_deduped-OnePerKey_example :
    let r = list_books_deduped calm lib client params (pos 5) (world []) in
    (pages : List (Paged Book)) × Fetched calm lib client params [] (world []) pages r.0.1 r.1
    × OnePerKey lib (all_books pages) r.0.0.items
list_books_deduped-OnePerKey_example =
    list_books_deduped-OnePerKey calm lib client params (pos 5) (world [])

ids : List Book → List String
ids [] = []
ids (b ∷ bs) = b.id ∷ ids bs

-- two rounds, as the second page repeats the first
deduped_ids :
    ids (list_books_deduped calm lib client params (pos 2) (world [])).0.0.items ≡ "b1" ∷ "b3" ∷ []
unfolding ids list_books_deduped list_books get send ◌>>=◌ dedup_key atoi itoa normalize_key
    first_author
deduped_ids = refl
