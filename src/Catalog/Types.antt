-- ===== src/Catalog/Types.antt =====
-- internal/catalog/types.go and transform.go, and what a handler reads and writes.
use continuum_plugin_bookwar.Prelude.{
  ℕ, String, Bool, ◌||◌, Option, List, [], ◌∷◌, map, Bytes, to_lower, ◌==◌, ℤ, if◌then◌else◌,
}
use continuum_plugin_bookwar.Books.Types.{
  Float, Book, BookDetail, File, Paged, Genre, Facet, ExternalSearchHit,
}

pub record EbookSummary : Type 0 where
  pub id : String
  pub title : String
  pub authors : List String
  pub series : String
  pub series_index : Float
  pub year : ℤ
  pub language : String
  pub cover_url : Bytes
  pub has_cover : Bool
  pub rating : Float
  pub formats : List String

pub record EbookFile : Type 0 where
  pub format : String
  pub size_bytes : ℤ
  pub mime_type : String
  pub url : Bytes

pub record EbookDetail : Type 0 where
  pub summary : EbookSummary
  pub description : String
  pub isbn : String
  pub publisher : String
  pub genres : List String
  pub tags : List String
  pub files : List EbookFile
  pub upstream_id : String

unfoldable pub to_summary : Book → EbookSummary
to_summary b = record {
  id = b.id;
  title = b.title;
  authors = b.authors;
  series = b.series;
  series_index = b.series_index;
  year = b.year;
  language = b.language;
  cover_url = b.cover_url;
  has_cover = b.has_cover;
  rating = b.rating;
  formats = b.formats;
}

unfoldable pub format_to_mime : String → String
format_to_mime format =
    let f = to_lower format in
    if f == "epub"
    then "application/epub+zip"
    else if f == "pdf"
    then "application/pdf"
    else if f == "mobi"
    then "application/x-mobipocket-ebook"
    else if f == "azw" || f == "azw3"
    then "application/vnd.amazon.ebook"
    else if f == "djvu"
    then "image/vnd.djvu"
    else if f == "fb2"
    then "application/x-fictionbook+xml"
    else if f == "cbz"
    then "application/vnd.comicbook+zip"
    else if f == "cbr"
    then "application/vnd.comicbook-rar"
    else if f == "txt"
    then "text/plain"
    else "application/octet-stream"

to_file : File → EbookFile
unfolding format_to_mime
to_file f = record {
  format = f.format;
  size_bytes = f.size_bytes;
  mime_type = format_to_mime f.format;
  url = f.url;
}

unfoldable pub to_detail : BookDetail → EbookDetail
unfolding to_summary to_file
to_detail d = record {
  summary = to_summary d.book;
  description = d.description;
  isbn = d.book.isbn;
  publisher = d.book.publisher;
  genres = d.genres;
  tags = d.tags;
  files = map to_file d.files;
  upstream_id = d.book.id;
}

-- What a handler reads of an http.Request: Query().Get, chi.URLParam and the header Range.
pub record HttpRequest : Type 0 where
  pub query : String → String
  pub url_param : String → String
  pub range_header : String

-- What a handler writes. A value is encoded as JSON; `streamed` is a copied body.
pub data Content : Type 0 where
  page : Paged EbookSummary → Content
  detail : EbookDetail → Content
  snapshot : String → String → Content
  genres : Paged Genre → Content
  facets : Paged Facet → Content
  hits : List ExternalSearchHit → Content
  library : ℕ → Content
  message : String → Content
  reason : Bytes → Content
  streamed : Option Bytes → Content

pub record Response : Type 0 where
  pub status : ℕ
  pub headers : List (String × String)
  pub content : Content

-- a JSON answer with a status, which is 200 when the handler sets none
abbrev pub json : ℕ → Content → Response
json status content = record {
  status = status;
  headers = ("Content-Type", "application/json") ∷ [];
  content = content;
}

-- http.Error
abbrev pub http_error : ℕ → String → Response
http_error status text = record {
  status = status;
  headers =
      ("Content-Type", "text/plain; charset=utf-8") ∷ ("X-Content-Type-Options", "nosniff") ∷ [];
  content = message text;
}

-- upstreamError
unfoldable pub upstream_error : Response
upstream_error = http_error 502 "upstream unavailable"
