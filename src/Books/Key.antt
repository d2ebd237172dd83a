-- ===== src/Books/Key.antt =====
-- normalizeKey and dedupKey of internal/bookwarehouse/catalog.go.
pub mod Normal
pub mod Same
use continuum_plugin_bookwar.Prelude.{
  ℕ, ◌+◌, ◌≡◌, refl, String, Bool, true, false, ◌&&◌, ◌||◌, List, [], ◌∷◌, ◌++◌, Bytes, codes, utf8,
  leb, eqb, if◌then◌else◌,
}
use continuum_plugin_bookwar.Books.Types.{Book, Codec}

-- A–Z
abbrev pub is_upper : ℕ → Bool
is_upper r = leb b'A' r && leb r b'Z'

-- a–z and 0–9
abbrev pub is_kept : ℕ → Bool
is_kept r = leb b'a' r && leb r b'z' || leb b'0' r && leb r b'9'

-- The loop over the runes. `prev_space` says that a space was just written, or nothing yet.
pub fold_runes : Bool → List ℕ → Bytes
fold_runes prev_space [] = []
fold_runes prev_space (r ∷ rs) =
    let lowered = (r + 32) ∷ fold_runes false rs in
    let kept = r ∷ fold_runes false rs in
    let skipped = fold_runes true rs in
    let spaced = b' ' ∷ fold_runes true rs in
    if is_upper r
    then lowered
    else if is_kept r
    then kept
    else if prev_space
    then skipped
    else spaced

-- `if n := len(out); n > 0 && out[n-1] == ' ' { out = out[:n-1] }`
pub trim_end : Bytes → Bytes
trim_end [] = []
trim_end (c ∷ []) = if eqb c b' ' then [] else c ∷ []
trim_end (c ∷ d ∷ s) = c ∷ trim_end (d ∷ s)

unfoldable pub normalize_runes : List ℕ → Bytes
unfolding fold_runes trim_end
normalize_runes rs = trim_end (fold_runes true rs)

unfoldable pub normalize_key : String → Bytes
unfolding normalize_runes
normalize_key s = normalize_runes (codes s)

-- `""` when there is no author
unfoldable pub first_author : List String → Bytes
unfolding normalize_key
first_author [] = []
first_author (a ∷ authors) = normalize_key a

unfoldable pub titled_key : Codec → Book → Bytes → Bytes
titled_key lib b [] = codes "id:" ++ utf8 b.id
titled_key lib b (c ∷ t) =
    codes "ta:"
    ++ ((c ∷ t)
        ++ (b'|'
            ∷ (first_author b.authors
                ++ (b'|' ∷ (normalize_key b.series ++ (b'|' ∷ lib.format_float b.series_index))))))

unfoldable pub dedup_key : Codec → Book → Bytes
unfolding titled_key
dedup_key lib b = titled_key lib b (normalize_key b.title)

normalize_spaces : normalize_key "  The  War -- of WORLDS!" ≡ codes "the war of worlds"
unfolding normalize_key
normalize_spaces = refl
