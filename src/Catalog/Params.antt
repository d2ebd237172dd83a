-- ===== src/Catalog/Params.antt =====
-- clampLimit and parseListParams of internal/catalog/handler.go.
use continuum_plugin_bookwar.Prelude.{
  ℕ, zero, suc, ◌≤◌, ◌≡◌, ◌⊎◌, inl, inr, String, ◌||◌, Option, none, some, utf8, to_lower, ◌==◌, ℤ,
  pos, negsuc, ltb, atoi, arith, Bool-cases, ltb_false→le, eq_iff, if◌then◌else◌,
}
use continuum_plugin_bookwar.Books.Types.{ListParams}
use continuum_plugin_bookwar.Catalog.Types.{HttpRequest}

abbrev pub max_catalog_limit : ℕ
max_catalog_limit = 100

-- what Atoi gave, or an error
clamped : ℤ → Option ℤ → ℤ
clamped default none = default
clamped default (some (negsuc n)) = default
clamped default (some (pos zero)) = default
clamped default (some (pos (suc n))) =
    if ltb max_catalog_limit (suc n) then pos max_catalog_limit else pos (suc n)

-- Atoi refuses "", so the empty parameter gives the default, too.
unfoldable pub clamp_limit : HttpRequest → ℤ → ℤ
unfolding clamped
clamp_limit r default = clamped default (atoi (utf8 (r.query "limit")))

-- the switch over `sort`
unfoldable pub allowed_sort : String → String
allowed_sort s =
    if s == "title"
      || s == "author"
      || s == "year"
      || s == "series"
      || s == "added"
      || s == "rating"
    then s
    else ""

-- the switch over `order`
unfoldable pub allowed_order : String → String
allowed_order o = if o == "asc" || o == "desc" then o else ""

unfoldable pub parse_list_params : HttpRequest → ListParams
unfolding clamp_limit allowed_sort allowed_order
parse_list_params r = record {
  cursor = utf8 (r.query "cursor");
  limit = clamp_limit r (pos 0);
  sort = allowed_sort (to_lower (r.query "sort"));
  order = allowed_order (to_lower (r.query "order"));
  query = "";
  author = "";
  series = "";
  genre = "";
  tag = "";
}

-- An integer from 0 to the largest limit.
abbrev pub InLimit : ℤ → Type 0
InLimit (pos n) = n ≤ max_catalog_limit
InLimit (negsuc n) = ⊥

clamped-InLimit : (default : ℤ) (o : Option ℤ) → InLimit default → InLimit (clamped default o)
unfolding clamped
clamped-InLimit default none h = h
clamped-InLimit default (some (negsuc n)) h = h
clamped-InLimit default (some (pos zero)) h = h
clamped-InLimit default (some (pos (suc n))) h = elim (Bool-cases (ltb max_catalog_limit (suc n))) [
  | inl over ↦ rw over (omega arith)
  | inr within ↦ rw within (ltb_false→le max_catalog_limit (suc n) within)
]

-- The words that are passed on.
abbrev pub AllowedSort : String → Type 0
AllowedSort s =
    (s ≡ "")
    ⊎ (s ≡ "title")
    ⊎ (s ≡ "author")
    ⊎ (s ≡ "year")
    ⊎ (s ≡ "series")
    ⊎ (s ≡ "added")
    ⊎ (s ≡ "rating")

abbrev pub AllowedOrder : String → Type 0
AllowedOrder o = (o ≡ "") ⊎ (o ≡ "asc") ⊎ (o ≡ "desc")

allowed_sort-AllowedSort : (s : String) → AllowedSort (allowed_sort s)
unfolding allowed_sort
allowed_sort-AllowedSort s = ground (
  arith,
  eq_iff s "title",
  eq_iff s "author",
  eq_iff s "year",
  eq_iff s "series",
  eq_iff s "added",
  eq_iff s "rating",
)

allowed_order-AllowedOrder : (o : String) → AllowedOrder (allowed_order o)
unfolding allowed_order
allowed_order-AllowedOrder o = ground (arith, eq_iff o "asc", eq_iff o "desc")

-- Whatever the query of a request, the limit that is passed on is from 0 to 100, and the sort and
-- the order are empty or among the words that upstream knows.
pub parse_list_params-Allowed :
    (r : HttpRequest)
    → InLimit (parse_list_params r).limit
      × AllowedSort (parse_list_params r).sort
      × AllowedOrder (parse_list_params r).order
unfolding parse_list_params clamp_limit
parse_list_params-Allowed r = (
  clamped-InLimit (pos 0) (atoi (utf8 (r.query "limit"))) (omega arith),
  allowed_sort-AllowedSort (to_lower (r.query "sort")),
  allowed_order-AllowedOrder (to_lower (r.query "order")),
)
