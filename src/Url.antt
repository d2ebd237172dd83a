-- ===== src/Url.antt =====
-- url.PathEscape of Go's net/url, as internal/bookwarehouse uses it for ids in a path.
pub mod Order
pub mod Sorted
use Prim.Native.String.{compare}
use text.Mathlib.Text.{is_le}
use continuum_plugin_bookwar.Prelude.{
  ◌==◌, ℕ, ◌+◌, ◌/◌, ◌-◌, ◌%◌, ◌≡◌, refl, ◌≢◌, Bool, true, Bool-cases, inl, inr, ◌&&◌, ◌||◌, List,
  [], ◌∷◌, ◌++◌, String, Bytes, codes, utf8, ltb, leb, eqb, if◌then◌else◌, arith, All, All-append,
}

-- one of "0123456789ABCDEF"
hex_digit : ℕ → ℕ
hex_digit n = if ltb n 10 then b'0' + n else b'A' + (n - 10)

in_range : ℕ → ℕ → ℕ → Bool
in_range lo hi c = leb lo c && leb c hi

-- shouldEscape(c, encodePathSegment) is false: letters, digits, - _ . ~ and $ & + : = @
is_plain : ℕ → Bool
unfolding in_range
is_plain c =
    in_range b'a' b'z' c
    || in_range b'A' b'Z' c
    || in_range b'0' b'9' c
    || eqb c b'-'
    || eqb c b'_'
    || eqb c b'.'
    || eqb c b'~'
    || eqb c b'$'
    || eqb c b'&'
    || eqb c b'+'
    || eqb c b':'
    || eqb c b'='
    || eqb c b'@'

escape_byte : ℕ → Bytes
unfolding hex_digit is_plain
escape_byte c = if is_plain c then c ∷ [] else b'%' ∷ hex_digit (c / 16) ∷ hex_digit (c % 16) ∷ []

escape_bytes : Bytes → Bytes
unfolding escape_byte
escape_bytes [] = []
escape_bytes (c ∷ cs) = escape_byte c ++ escape_bytes cs

unfoldable pub path_escape : String → Bytes
unfolding escape_bytes
path_escape s = escape_bytes (utf8 s)

-- shouldEscape(c, encodeQueryComponent) is false: letters, digits and - _ . ~
is_unreserved : ℕ → Bool
unfolding in_range
is_unreserved c =
    in_range b'a' b'z' c
    || in_range b'A' b'Z' c
    || in_range b'0' b'9' c
    || eqb c b'-'
    || eqb c b'_'
    || eqb c b'.'
    || eqb c b'~'

query_byte : ℕ → Bytes
unfolding hex_digit is_unreserved
query_byte c =
    if eqb c b' '
    then b'+' ∷ []
    else if is_unreserved c
    then c ∷ []
    else b'%' ∷ hex_digit (c / 16) ∷ hex_digit (c % 16) ∷ []

-- url.QueryEscape
unfoldable pub query_escape : Bytes → Bytes
unfolding query_byte
query_escape [] = []
query_escape (c ∷ cs) = query_byte c ++ query_escape cs

-- url.Values with one value for each key
abbrev pub Values : Type 0
Values = List (String × Bytes)

-- q.Set(key, value)
unfoldable pub set_value : String → Bytes → Values → Values
set_value k v [] = (k, v) ∷ []
set_value k v ((j, w) ∷ q) = if j == k then (k, v) ∷ q else (j, w) ∷ set_value k v q

-- `if value != "" { q.Set(key, value) }`
unfoldable pub set_given : String → Bytes → Values → Values
unfolding set_value
set_given k [] q = q
set_given k (c ∷ v) q = set_value k (c ∷ v) q

pub insert_key : String × Bytes → Values → Values
insert_key (k, v) [] = (k, v) ∷ []
insert_key (k, v) ((j, w) ∷ q) =
    if is_le (compare k j) then (k, v) ∷ (j, w) ∷ q else (j, w) ∷ insert_key (k, v) q

pub sort_keys : Values → Values
unfolding insert_key
sort_keys [] = []
sort_keys (p ∷ q) = insert_key p (sort_keys q)

pub join_pairs : Values → Bytes
unfolding query_escape
join_pairs [] = []
join_pairs ((k, v) ∷ []) = query_escape (utf8 k) ++ (b'=' ∷ query_escape v)
join_pairs ((k, v) ∷ p ∷ q) =
    query_escape (utf8 k) ++ (b'=' ∷ (query_escape v ++ (b'&' ∷ join_pairs (p ∷ q))))

-- Values.Encode: the pairs, sorted by key
unfoldable pub encode : Values → Bytes
unfolding sort_keys join_pairs
encode q = join_pairs (sort_keys q)

encode_sorted :
    encode (("page", codes "2") ∷ ("author", codes "A & B") ∷ []) ≡ codes "author=A+%26+B&page=2"
unfolding encode utf8
encode_sorted = refl

-- A byte that neither ends a path segment, nor starts a query or a fragment.
abbrev pub InSegment : ℕ → Type 0
InSegment c = (c ≢ b'/') × (c ≢ b'?') × (c ≢ b'#')

plain_InSegment : (c : ℕ) → is_plain c ≡ true → InSegment c
unfolding is_plain
plain_InSegment c h = (λ e. cc (rw e at h), λ e. cc (rw e at h), λ e. cc (rw e at h))

hex_digit-InSegment : (n : ℕ) → InSegment (hex_digit n)
unfolding hex_digit
hex_digit-InSegment n = ground arith

escape_byte-InSegment : (c : ℕ) → All InSegment (escape_byte c)
unfolding escape_byte
escape_byte-InSegment c = elim (Bool-cases (is_plain c)) [
  | inl plain ↦ rw plain (plain_InSegment c plain, tt)
  | inr other ↦ rw other (
    (omega arith, omega arith, omega arith),
    (hex_digit-InSegment (c / 16), (hex_digit-InSegment (c % 16), tt)),
  )
]

escape_bytes-InSegment : (s : Bytes) → All InSegment (escape_bytes s)
unfolding escape_bytes
escape_bytes-InSegment [] = tt
escape_bytes-InSegment (c ∷ cs) =
    All-append InSegment (escape_byte c) (escape_bytes cs) (escape_byte-InSegment c)
      (escape_bytes-InSegment cs)

-- Whatever the id, its escaped form stays inside one segment of a path.
pub path_escape-InSegment : (s : String) → All InSegment (path_escape s)
unfolding path_escape
path_escape-InSegment s = escape_bytes-InSegment (utf8 s)

path_escape_dots : path_escape "../a?b" ≡ codes "..%2Fa%3Fb"
unfolding path_escape utf8
path_escape_dots = refl
