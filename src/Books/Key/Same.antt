-- ===== src/Books/Key/Same.antt =====
-- When two books have one key.
use continuum_plugin_bookwar.Prelude.{
  ℕ, ◌≡◌, ◌≢◌, refl, sym, ap, ◌∙◌, ◌↔◌, inl, inr, String, Bool, true, false, List, [], ◌∷◌, ◌++◌,
  Bytes, codes, arith, All, drop,
}
use continuum_plugin_bookwar.Books.Types.{Book, Codec}
use continuum_plugin_bookwar.Books.Key.{normalize_key, first_author, titled_key, dedup_key}
use continuum_plugin_bookwar.Books.Key.Normal.{Spaced, normalize_runes_normal}

-- a byte that is no bar
abbrev NoBar : ℕ → Type 0
NoBar c = c ≢ b'|'

Spaced-NoBar : (b : Bool) (s : Bytes) → Spaced b s → All NoBar s
Spaced-NoBar b [] h = tt
Spaced-NoBar b (c ∷ s) (inl (kept, h)) = (λ e. ground arith, Spaced-NoBar false s h)
Spaced-NoBar b (c ∷ s) (inr (space, _, h)) = (λ e. ground arith, Spaced-NoBar true s h)

normalize_key-NoBar : (s : String) → All NoBar (normalize_key s)
unfolding normalize_key
normalize_key-NoBar s = Spaced-NoBar true _ (normalize_runes_normal (codes s)).0

first_author-NoBar : (authors : List String) → All NoBar (first_author authors)
unfolding first_author
first_author-NoBar [] = tt
first_author-NoBar (a ∷ authors) = normalize_key-NoBar a

-- texts before the first bar are equal, and so is what follows it
split_at_bar :
    (s t u v : Bytes)
    → All NoBar s
    → All NoBar t
    → s ++ (b'|' ∷ u) ≡ t ++ (b'|' ∷ v)
    → (s ≡ t) × (u ≡ v)
split_at_bar [] [] u v hs ht e = (refl, ground arith)
split_at_bar [] (d ∷ t) u v hs ht e = absurd (ht.0 (ground arith))
split_at_bar (c ∷ s) [] u v hs ht e = absurd (hs.0 (ground arith))
split_at_bar (c ∷ s) (d ∷ t) u v hs ht e =
    let (same, rest) = split_at_bar s t u v hs.1 ht.1 (ground arith) in (ground arith, rest)

-- What makes two books with titles one work.
pub record SameWork (lib : Codec) (a b : Book) : Type 0 where
  pub title : normalize_key a.title ≡ normalize_key b.title
  pub author : first_author a.authors ≡ first_author b.authors
  pub series : normalize_key a.series ≡ normalize_key b.series
  pub index : lib.format_float a.series_index ≡ lib.format_float b.series_index

module _ (lib : Codec) (a b : Book) where
  titled-SameWork :
      (s t : Bytes)
      → normalize_key a.title ≡ s
      → normalize_key b.title ≡ t
      → s ≢ []
      → t ≢ []
      → titled_key lib a s ≡ titled_key lib b t
      → SameWork lib a b
  unfolding titled_key
  titled-SameWork [] t hs ht ps pt e = absurd (ps refl)
  titled-SameWork (c ∷ s) [] hs ht ps pt e = absurd (pt refl)
  titled-SameWork (c ∷ s) (d ∷ t) hs ht ps pt e =
      let (same_title, e1) =
        split_at_bar (c ∷ s) (d ∷ t) _ _ (rw hs at (normalize_key-NoBar a.title))
          (rw ht at (normalize_key-NoBar b.title)) (ap (drop 3) e) in
      let (same_author, e2) =
        split_at_bar (first_author a.authors) (first_author b.authors) _ _
          (first_author-NoBar a.authors) (first_author-NoBar b.authors) e1 in
      let (same_series, same_index) =
        split_at_bar (normalize_key a.series) (normalize_key b.series) _ _
          (normalize_key-NoBar a.series) (normalize_key-NoBar b.series) e2 in
      record {
        title = hs ∙ same_title ∙ sym ht;
        author = same_author;
        series = same_series;
        index = same_index;
      }

  SameWork-titled :
      (s : Bytes) → s ≢ [] → SameWork lib a b → titled_key lib a s ≡ titled_key lib b s
  unfolding titled_key
  SameWork-titled [] ps h = absurd (ps refl)
  SameWork-titled (c ∷ s) ps h = rw (h.author, h.series, h.index)

  -- Two books whose titles have a letter a–z or a digit get one key exactly when their normalized
  -- titles, first authors and series are equal and their series indices print alike.
  pub dedup_key-eq_iff :
      normalize_key a.title ≢ []
      → normalize_key b.title ≢ []
      → (dedup_key lib a ≡ dedup_key lib b) ↔ SameWork lib a b
  unfolding dedup_key
  dedup_key-eq_iff pa pb = (
    λ e. titled-SameWork _ _ refl refl pa pb e,
    λ h. SameWork-titled (normalize_key a.title) pa h ∙ ap (titled_key lib b) h.title,
  )
