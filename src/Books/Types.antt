-- ===== src/Books/Types.antt =====
-- internal/bookwarehouse/types.go, and the JSON that the upstream service answers with.
use continuum_plugin_bookwar.Prelude.{ℕ, ℤ, String, Bool, Option, List, Bytes}
use continuum_plugin_bookwar.Result.{Result}

-- A float64, by its bits.
abbrev pub Float : Type 0
Float = ℕ

pub record Book : Type 0 where
  pub id : String
  pub title : String
  pub authors : List String
  pub isbn : String
  pub publisher : String
  pub series : String
  pub series_index : Float
  pub year : ℤ
  pub language : String
  pub cover_url : Bytes
  pub has_cover : Bool
  pub rating : Float
  pub formats : List String

pub record Paged {ℓ} (A : Type ℓ) : Type ℓ where
  pub items : List A
  pub next_cursor : Bytes
  pub total : ℤ

-- one element of "books" in ListBooks; `authors` has the names
pub record UpstreamBook : Type 0 where
  pub id : String
  pub title : String
  pub author : String
  pub authors : List String
  pub isbn13 : String
  pub publisher : String
  pub published_at : Bytes
  pub language : String
  pub has_cover : Bool
  pub file_format : String
  pub series_name : String
  pub series_index : Float

-- the answer of GET /api/v1/books
pub record UpstreamPage : Type 0 where
  pub books : List UpstreamBook
  pub total_items : ℤ
  pub total_pages : ℤ

pub record File : Type 0 where
  pub format : String
  pub size_bytes : ℤ
  pub url : Bytes

pub record BookDetail : Type 0 where
  pub book : Book
  pub description : String
  pub genres : List String
  pub tags : List String
  pub files : List File

-- the answer of GET /api/v1/books/{id}: what a list's element has, and more
pub record UpstreamDetail : Type 0 where
  pub summary : UpstreamBook
  pub file_size : ℤ
  pub description : String
  pub genres : List String
  pub tags : List String

-- Author, Series and Tag have the same fields.
pub record Facet : Type 0 where
  pub id : String
  pub name : String
  pub count : ℤ

pub record Genre : Type 0 where
  pub id : Bytes
  pub name : String
  pub slug : String
  pub count : ℤ

pub record UpstreamGenre : Type 0 where
  pub id : ℤ
  pub name : String
  pub slug : String
  pub book_count : ℤ

-- the answer of GET /api/v1/genres
pub record UpstreamGenres : Type 0 where
  pub genres : List UpstreamGenre
  pub page : ℤ
  pub total_pages : ℤ
  pub total_items : ℤ

pub record ExternalSearchHit : Type 0 where
  pub source_id : String
  pub source : String
  pub title : String
  pub authors : List String
  pub year : ℤ
  pub language : String
  pub formats : List String
  pub size_bytes : ℤ
  pub cover_url : String

-- one element of "results" in ExternalSearch
pub record UpstreamHit : Type 0 where
  pub title : String
  pub authors : List String
  pub published_date : Option String
  pub language : Option String
  pub cover_url : Option String
  pub source : String

pub record ListParams : Type 0 where
  pub cursor : Bytes
  pub limit : ℤ
  pub sort : String
  pub order : String
  pub query : String
  pub author : String
  pub series : String
  pub genre : String
  pub tag : String

-- encoding/json at the types of the answers, and strconv.FormatFloat(x, 'f', -1, 64)
pub record Codec : Type 0 where
  pub unmarshal_page : Bytes → Result UpstreamPage
  pub unmarshal_detail : Bytes → Result UpstreamDetail
  pub unmarshal_genres : Bytes → Result UpstreamGenres
  pub unmarshal_hits : Bytes → Result (List UpstreamHit)
  pub format_float : Float → Bytes
