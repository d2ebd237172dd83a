-- ===== src/Adapter/Query.antt =====
-- The query that Handle rebuilds from the fields of the call, which Go keeps in a map.
use mathlib.Core.List.{Permᴰ}
use mathlib.Core.Path.{subst}
use continuum_plugin_bookwar.Prelude.{
  ◌≡◌, ◌≢◌, refl, sym, ap, ◌∙◌, String, true, false, Option, none, some, List, [], ◌∷◌, Bytes,
  codes, utf8, All,
}
use continuum_plugin_bookwar.Url.{Values, insert_key, sort_keys}
use continuum_plugin_bookwar.Url.Sorted.{
  IsFresh, insert_key_comm, sort_keys-set_value, set_value-IsFresh, encode-sort_keys,
}
use continuum_plugin_bookwar.Adapter.{
  QueryValue, string_value, number_value, bool_value, other_value, HttpLib, set_query_value,
  query_values, raw_query,
}

abbrev pub QueryFields : Type 0
QueryFields = List (String × QueryValue)

-- Each key stands once, as in a map.
abbrev pub IsMap : QueryFields → Type 0
IsMap [] = Unit
IsMap ((k, v) ∷ fs) = All (λ f. f.0 ≢ k) fs × IsMap fs

module _ (lib : HttpLib) where
  -- the text that a field puts into the query
  text_of : QueryValue → Option Bytes
  text_of (string_value s) = some (utf8 s)
  text_of (number_value x) = some (lib.format_float x)
  text_of (bool_value true) = some (codes "true")
  text_of (bool_value false) = some (codes "false")
  text_of other_value = none

  inserted : String → Option Bytes → Values → Values
  inserted k none q = q
  inserted k (some v) q = insert_key (k, v) q

  all_inserted : QueryFields → Values → Values
  unfolding text_of inserted
  all_inserted [] q = q
  all_inserted ((k, v) ∷ fs) q = all_inserted fs (inserted k (text_of v) q)

  sort_keys-set_query_value :
      (k : String) (v : QueryValue) (q : Values)
      → IsFresh k q
      → sort_keys (set_query_value lib k v q) ≡ inserted k (text_of v) (sort_keys q)
  unfolding set_query_value text_of inserted
  sort_keys-set_query_value k (string_value s) q h = sort_keys-set_value k (utf8 s) q h
  sort_keys-set_query_value k (number_value x) q h = sort_keys-set_value k (lib.format_float x) q h
  sort_keys-set_query_value k (bool_value true) q h = sort_keys-set_value k (codes "true") q h
  sort_keys-set_query_value k (bool_value false) q h = sort_keys-set_value k (codes "false") q h
  sort_keys-set_query_value k other_value q h = refl

  set_query_value-IsFresh :
      (j k : String) (v : QueryValue) (q : Values)
      → k ≢ j
      → IsFresh j q
      → IsFresh j (set_query_value lib k v q)
  unfolding set_query_value
  set_query_value-IsFresh j k (string_value s) q ne h = set_value-IsFresh j k _ q ne h
  set_query_value-IsFresh j k (number_value x) q ne h = set_value-IsFresh j k _ q ne h
  set_query_value-IsFresh j k (bool_value true) q ne h = set_value-IsFresh j k _ q ne h
  set_query_value-IsFresh j k (bool_value false) q ne h = set_value-IsFresh j k _ q ne h
  set_query_value-IsFresh j k other_value q ne h = h

  -- no field has a key of the query
  abbrev AllFresh : QueryFields → Values → Type 0
  AllFresh fs q = All (λ f. IsFresh f.0 q) fs

  set_query_value-AllFresh :
      (k : String) (v : QueryValue) (fs : QueryFields) (q : Values)
      → All (λ f. f.0 ≢ k) fs
      → AllFresh fs q
      → AllFresh fs (set_query_value lib k v q)
  set_query_value-AllFresh k v [] q ne h = tt
  set_query_value-AllFresh k v ((j, w) ∷ fs) q ne h = (
    set_query_value-IsFresh j k v q (λ e. ne.0 (sym e)) h.0,
    set_query_value-AllFresh k v fs q ne.1 h.1,
  )

  sort_keys-query_values :
      (fs : QueryFields) (q : Values)
      → IsMap fs
      → AllFresh fs q
      → sort_keys (query_values lib fs q) ≡ all_inserted fs (sort_keys q)
  unfolding query_values all_inserted
  sort_keys-query_values [] q h fresh = refl
  sort_keys-query_values ((k, v) ∷ fs) q h fresh =
      sort_keys-query_values fs (set_query_value lib k v q) h.1
        (set_query_value-AllFresh k v fs q h.0 fresh.1)
      ∙ ap (all_inserted fs) (sort_keys-set_query_value k v q fresh.0)

  inserted_comm :
      (k j : String) (v w : Option Bytes) (q : Values)
      → k ≢ j
      → inserted k v (inserted j w q) ≡ inserted j w (inserted k v q)
  unfolding inserted
  inserted_comm k j none w q ne = refl
  inserted_comm k j (some v) none q ne = refl
  inserted_comm k j (some v) (some w) q ne = insert_key_comm k j v w q ne

  fresh_in_none : (fs : QueryFields) → AllFresh fs []
  fresh_in_none [] = tt
  fresh_in_none (f ∷ fs) = (tt, fresh_in_none fs)

  All-permuted :
      (P : String × QueryValue → Type 0) {fs gs : QueryFields} → Permᴰ fs gs → All P fs → All P gs
  All-permuted P Permᴰ.nil h = tt
  All-permuted P (Permᴰ.cons e p) h = (subst P e h.0, All-permuted P p h.1)
  All-permuted P (Permᴰ.swap e e') h = (subst P e' h.1.0, (subst P e h.0, h.1.1))
  All-permuted P (Permᴰ.trans p p') h = All-permuted P p' (All-permuted P p h)

  IsMap-permuted : {fs gs : QueryFields} → Permᴰ fs gs → IsMap fs → IsMap gs
  IsMap-permuted Permᴰ.nil h = tt
  IsMap-permuted (Permᴰ.cons {b = b} e p) h =
      (All-permuted (λ f. f.0 ≢ b.0) p (rw (sym e) h.0), IsMap-permuted p h.1)
  IsMap-permuted (Permᴰ.swap {b = b} {b' = b'} {l = l} e e') h =
      subst (λ (x : String × QueryValue). IsMap (x ∷ b' ∷ l)) e'
        (subst (λ (y : String × QueryValue). IsMap (b ∷ y ∷ l)) e
          ((λ s. h.0.0 (sym s), h.1.0), (h.0.1, h.1.1)))
  IsMap-permuted (Permᴰ.trans p p') h = IsMap-permuted p' (IsMap-permuted p h)

  all_inserted-permuted :
      {fs gs : QueryFields} (q : Values)
      → Permᴰ fs gs
      → IsMap fs
      → all_inserted fs q ≡ all_inserted gs q
  unfolding all_inserted
  all_inserted-permuted q Permᴰ.nil h = refl
  all_inserted-permuted q (Permᴰ.cons e p) h = rw (sym e) (all_inserted-permuted _ p h.1)
  all_inserted-permuted q (Permᴰ.swap {a = a} {b = b} {l = l} e e') h =
      rw (sym e, sym e')
        (ap (all_inserted l) (inserted_comm b.0 a.0 (text_of b.1) (text_of a.1) q h.0.0))
  all_inserted-permuted q (Permᴰ.trans p p') h =
      all_inserted-permuted q p h ∙ all_inserted-permuted q p' (IsMap-permuted p h)

  -- When each key stands once among the fields, as in a map, the rebuilt query does not depend on
  -- the order in which Go walks the map.
  pub raw_query-permuted :
      (fs gs : QueryFields)
      → Permᴰ fs gs
      → IsMap fs
      → raw_query lib (some fs) ≡ raw_query lib (some gs)
  unfolding raw_query
  raw_query-permuted fs gs p h =
      encode-sort_keys (query_values lib fs []) (query_values lib gs []) (
        sort_keys-query_values fs [] h (fresh_in_none fs)
        ∙ (all_inserted-permuted (sort_keys []) p h
            ∙ sym (sort_keys-query_values gs [] (IsMap-permuted p h) (fresh_in_none gs))))
