-- ===== src/Url/Sorted.antt =====
-- The sorted pairs of a query, and the order in which they are set.
use Prim.Native.String.{compare}
use text.Mathlib.Text.{is_le}
use continuum_plugin_bookwar.Prelude.{
  ◌≡◌, ◌≢◌, refl, sym, ap, ◌∙◌, inl, inr, ◌==◌, String, false, Bool-cases, [], ◌∷◌, Bytes, All,
  eq_iff,
}
use continuum_plugin_bookwar.Url.{Values, set_value, insert_key, sort_keys, join_pairs, encode}
use continuum_plugin_bookwar.Url.Order.{
  Before, Before-le, Before-not_le, Before-trans, Before-cases,
}

not_le : (k j x : String) → Before k j → is_le (compare k x) ≡ false → is_le (compare j x) ≡ false
not_le k j x h out = elim (Bool-cases (is_le (compare j x))) [
  | inl below ↦ cc (Before-trans k j x h below, out)
  | inr above ↦ above
]

module _ (k j : String) (v w : Bytes) (h : Before k j) where
  insert_key-below :
      (q : Values)
      → insert_key (k, v) (insert_key (j, w) q) ≡ insert_key (j, w) (insert_key (k, v) q)
  unfolding insert_key
  insert_key-below [] = rw (Before-le k j h, Before-not_le k j h) refl
  insert_key-below ((x, u) ∷ q) = elim (Bool-cases (is_le (compare k x))) [
    | inr out ↦
        let out' = not_le k j x h out in
        rw (out, out') (rw out (ap (λ (t : Values). (x, u) ∷ t) (insert_key-below q)))
    | inl under ↦ elim (Bool-cases (is_le (compare j x))) [
      | inl under' ↦ rw (under, under') (rw (Before-le k j h, Before-not_le k j h) refl)
      | inr out' ↦ rw (under, out') (rw (under, Before-not_le k j h) refl)
    ]
  ]

-- Pairs with different keys can be inserted in either order.
pub insert_key_comm :
    (k j : String) (v w : Bytes) (q : Values)
    → k ≢ j
    → insert_key (k, v) (insert_key (j, w) q) ≡ insert_key (j, w) (insert_key (k, v) q)
insert_key_comm k j v w q ne = elim (Before-cases k j ne) [
  | inl h ↦ insert_key-below k j v w h q
  | inr h ↦ sym (insert_key-below j k w v h q)
]

-- No pair has this key.
abbrev pub IsFresh : String → Values → Type 0
IsFresh k q = All (λ p. p.0 ≢ k) q

key_differs : (j k : String) → j ≢ k → (j == k) ≡ false
key_differs j k ne = elim (Bool-cases (j == k)) [
  | inl same ↦ absurd (ne ((eq_iff j k).0 same))
  | inr other ↦ other
]

-- A new key is inserted among the sorted ones.
pub sort_keys-set_value :
    (k : String) (v : Bytes) (q : Values)
    → IsFresh k q
    → sort_keys (set_value k v q) ≡ insert_key (k, v) (sort_keys q)
unfolding sort_keys set_value
sort_keys-set_value k v [] h = refl
sort_keys-set_value k v ((j, w) ∷ q) h = rw (key_differs j k h.0) (
    ap (insert_key (j, w)) (sort_keys-set_value k v q h.1)
    ∙ insert_key_comm j k w v (sort_keys q) h.0)

pub set_value-IsFresh :
    (j k : String) (v : Bytes) (q : Values) → k ≢ j → IsFresh j q → IsFresh j (set_value k v q)
unfolding set_value
set_value-IsFresh j k v [] ne h = (ne, tt)
set_value-IsFresh j k v ((i, w) ∷ q) ne h = elim (Bool-cases (i == k)) [
  | inl same ↦ rw same (ne, h.1)
  | inr other ↦ rw other (h.0, set_value-IsFresh j k v q ne h.1)
]

-- An encoded query depends on the sorted pairs alone.
pub encode-sort_keys : (q r : Values) → sort_keys q ≡ sort_keys r → encode q ≡ encode r
unfolding encode
encode-sort_keys q r h = ap join_pairs h
