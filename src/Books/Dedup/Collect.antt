-- ===== src/Books/Dedup/Collect.antt =====
-- What the loop over the fetched books keeps.
use mathlib.Core.List.{append-nil, append_assoc}
use continuum_plugin_bookwar.Prelude.{
  ◌≡◌, ◌≢◌, refl, sym, ap, ◌∙◌, ◌⊎◌, inl, inr, true, Bool-cases, List, [], ◌∷◌, ◌++◌, Bytes, arith,
  All, All-append, Ordered,
}
use continuum_plugin_bookwar.Books.Types.{Book, Codec}
use continuum_plugin_bookwar.Books.Key.{dedup_key}
use continuum_plugin_bookwar.Books.Dedup.{
  same_bytes, is_seen, Collected, nothing, add_book, add_books,
}

same_bytes_self : (s : Bytes) → same_bytes s s ≡ true
unfolding same_bytes
same_bytes_self [] = refl
same_bytes_self (c ∷ s) = ground (arith, same_bytes_self s)

same_bytes-eq : (s t : Bytes) → same_bytes s t ≡ true → s ≡ t
unfolding same_bytes
same_bytes-eq [] [] h = refl
same_bytes-eq [] (d ∷ t) h = cc
same_bytes-eq (c ∷ s) [] h = cc
same_bytes-eq (c ∷ s) (d ∷ t) h = ground (arith, same_bytes-eq s t)

is_seen_first : (k : Bytes) (seen : List Bytes) → is_seen k (k ∷ seen) ≡ true
unfolding is_seen
is_seen_first k seen = rw (same_bytes_self k) refl

is_seen_later :
    (k j : Bytes) (seen : List Bytes) → is_seen k seen ≡ true → is_seen k (j ∷ seen) ≡ true
unfolding is_seen
is_seen_later k j seen h = ground arith

-- The first list is what is left of the second when some elements are taken out.
pub data Sublist {ℓ} {A : Type ℓ} : List A → List A → Type ℓ where
  none_left : Sublist [] []
  kept : {x : A} {xs ys : List A} → Sublist xs ys → Sublist (x ∷ xs) (x ∷ ys)
  left_out : {y : A} {xs ys : List A} → Sublist xs ys → Sublist xs (y ∷ ys)

Ordered-snoc {ℓ κ} :
    {A : Type ℓ} (R : A → A → Type κ) (xs : List A) (y : A)
    → Ordered R xs
    → All (λ x. R x y) xs
    → Ordered R (xs ++ y ∷ [])
Ordered-snoc R [] y h k = (tt, tt)
Ordered-snoc R (x ∷ xs) y h k =
    (All-append (R x) xs (y ∷ []) h.0 (k.0, tt), Ordered-snoc R xs y h.1 k.1)

pub All-mono {ℓ κ μ} :
    {A : Type ℓ} (P : A → Type κ) (Q : A → Type μ) (xs : List A)
    → ((x : A) → P x → Q x)
    → All P xs
    → All Q xs
All-mono P Q [] f h = tt
All-mono P Q (x ∷ xs) f h = (f x h.0, All-mono P Q xs f h.1)

module _ (lib : Codec) where
  -- Some of the books has the key.
  abbrev pub HasKey : Bytes → List Book → Type 0
  HasKey k [] = ⊥
  HasKey k (b ∷ bs) = (dedup_key lib b ≡ k) ⊎ HasKey k bs

  abbrev pub DistinctKeys : List Book → Type 0
  DistinctKeys bs = Ordered (λ a b. dedup_key lib a ≢ dedup_key lib b) bs

  HasKey-append : (k : Bytes) (xs ys : List Book) → HasKey k xs → HasKey k (xs ++ ys)
  HasKey-append k [] ys h = elim h [ ]
  HasKey-append k (x ∷ xs) ys (inl e) = inl e
  HasKey-append k (x ∷ xs) ys (inr h) = inr (HasKey-append k xs ys h)

  HasKey-last : (b : Book) (xs : List Book) → HasKey (dedup_key lib b) (xs ++ b ∷ [])
  HasKey-last b [] = inl refl
  HasKey-last b (x ∷ xs) = inr (HasKey-last b xs)

  -- `seen` has the keys of the items, which differ.
  pub record IsSound (acc : Collected) : Type 0 where
    pub represented : (k : Bytes) → is_seen k acc.seen ≡ true → HasKey k acc.items
    pub marked : All (λ b. is_seen (dedup_key lib b) acc.seen ≡ true) acc.items
    pub distinct : DistinctKeys acc.items

  pub nothing-IsSound : IsSound nothing
  unfolding is_seen
  nothing-IsSound = record { represented = λ k h. cc; marked = tt; distinct = tt }

  represented-snoc :
      (b : Book) (seen : List Bytes) (items : List Book)
      → ((k : Bytes) → is_seen k seen ≡ true → HasKey k items)
      → (k : Bytes) → is_seen k (dedup_key lib b ∷ seen) ≡ true
      → HasKey k (items ++ b ∷ [])
  unfolding is_seen
  represented-snoc b seen items f k h = elim (Bool-cases (same_bytes k (dedup_key lib b))) [
    | inl same ↦ rw (same_bytes-eq k (dedup_key lib b) same) (HasKey-last b items)
    | inr differs ↦ HasKey-append k items (b ∷ []) (f k (rw differs at h))
  ]

  add_book-IsSound : (acc : Collected) (b : Book) → IsSound acc → IsSound (add_book lib acc b)
  unfolding add_book
  add_book-IsSound acc b s = elim (Bool-cases (is_seen (dedup_key lib b) acc.seen)) [
    | inl dup ↦ rw dup s
    | inr fresh ↦ rw fresh (record {
      represented = represented-snoc b acc.seen acc.items s.represented;
      marked =
          All-append _ acc.items (b ∷ [])
            (All-mono _ _ acc.items (λ a h. is_seen_later _ _ acc.seen h) s.marked)
            (is_seen_first (dedup_key lib b) acc.seen, tt);
      distinct =
          Ordered-snoc _ acc.items b s.distinct (All-mono _ _ acc.items (λ a h e. cc) s.marked);
    })
  ]

  pub add_books-IsSound :
      (bs : List Book) (acc : Collected) → IsSound acc → IsSound (add_books lib acc bs)
  unfolding add_books
  add_books-IsSound [] acc s = s
  add_books-IsSound (b ∷ bs) acc s =
      add_books-IsSound bs (add_book lib acc b) (add_book-IsSound acc b s)

  add_book-seen :
      (acc : Collected) (b : Book) (k : Bytes)
      → is_seen k acc.seen ≡ true
      → is_seen k (add_book lib acc b).seen ≡ true
  unfolding add_book
  add_book-seen acc b k h = elim (Bool-cases (is_seen (dedup_key lib b) acc.seen)) [
    | inl dup ↦ rw dup h
    | inr fresh ↦ rw fresh (is_seen_later k (dedup_key lib b) acc.seen h)
  ]

  add_books-seen :
      (bs : List Book) (acc : Collected) (k : Bytes)
      → is_seen k acc.seen ≡ true
      → is_seen k (add_books lib acc bs).seen ≡ true
  unfolding add_books
  add_books-seen [] acc k h = h
  add_books-seen (b ∷ bs) acc k h =
      add_books-seen bs (add_book lib acc b) k (add_book-seen acc b k h)

  add_book-marks :
      (acc : Collected) (b : Book) → is_seen (dedup_key lib b) (add_book lib acc b).seen ≡ true
  unfolding add_book
  add_book-marks acc b = elim (Bool-cases (is_seen (dedup_key lib b) acc.seen)) [
    | inl dup ↦ rw dup dup
    | inr fresh ↦ rw fresh (is_seen_first (dedup_key lib b) acc.seen)
  ]

  pub add_books-marks :
      (bs : List Book) (acc : Collected)
      → All (λ b. is_seen (dedup_key lib b) (add_books lib acc bs).seen ≡ true) bs
  unfolding add_books
  add_books-marks [] acc = tt
  add_books-marks (b ∷ bs) acc = (
    add_books-seen bs (add_book lib acc b) _ (add_book-marks acc b),
    add_books-marks bs (add_book lib acc b),
  )

  add_book-items :
      (acc : Collected) (b : Book)
      → ((add_book lib acc b).items ≡ acc.items)
        ⊎ ((add_book lib acc b).items ≡ acc.items ++ b ∷ [])
  unfolding add_book
  add_book-items acc b = elim (Bool-cases (is_seen (dedup_key lib b) acc.seen)) [
    | inl dup ↦ inl (simp dup)
    | inr fresh ↦ inr (simp fresh)
  ]

  pub add_books-Sublist :
      (bs : List Book) (acc : Collected)
      → (new : List Book) × ((add_books lib acc bs).items ≡ acc.items ++ new) × Sublist new bs
  unfolding add_books
  add_books-Sublist [] acc = ([], sym (append-nil acc.items), none_left)
  add_books-Sublist (b ∷ bs) acc =
      let (new, e, sub) = add_books-Sublist bs (add_book lib acc b) in
      elim (add_book-items acc b) [
        | inl same ↦ (new, e ∙ ap (λ (xs : List Book). xs ++ new) same, left_out sub)
        | inr more ↦ (
          b ∷ new,
          e ∙ ap (λ (xs : List Book). xs ++ new) more ∙ append_assoc acc.items (b ∷ []) new,
          kept sub,
        )
      ]

  -- The books are some of the fetched ones, in their order.
  pub record OnePerKey (fetched kept : List Book) : Type 0 where
    pub in_order : Sublist kept fetched
    pub distinct : DistinctKeys kept
    pub covered : All (λ b. HasKey (dedup_key lib b) kept) fetched

  pub add_books-OnePerKey : (bs : List Book) → OnePerKey bs (add_books lib nothing bs).items
  add_books-OnePerKey bs =
      let sound = add_books-IsSound bs nothing nothing-IsSound in
      let (new, e, sub) = add_books-Sublist bs nothing in
      record {
        in_order = rw e sub;
        distinct = sound.distinct;
        covered =
            All-mono _ _ bs (λ b h. sound.represented (dedup_key lib b) h)
              (add_books-marks bs nothing);
      }
