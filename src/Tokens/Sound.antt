-- ===== src/Tokens/Sound.antt =====
-- What an accepted token is.
use mathlib.Core.Path.{subst}
use continuum_plugin_bookwar.Prelude.{
  ℕ, String, true, ◌≡◌, ◌≢◌, refl, sym, ◌∙◌, ap, Option, none, some, Bytes, trim_space, eq_iff,
  arith, eqb_iff, ℤ, pos, negsuc,
}
use continuum_plugin_bookwar.Result.{Result, ok, err}
use continuum_plugin_bookwar.Tokens.{
  Claim, text, number, other, Token, Jwt, Claims, accepted, audience, decode_secret, key_for,
  text_claim, same_int, index_claim, check_subject, check_claims, check_map, check_token, verify,
}

text_claim-some : (o : Option Claim) (s : String) → text_claim o ≡ s → s ≢ "" → o ≡ some (text s)
unfolding text_claim
text_claim-some none s h ne = absurd (ne (cc))
text_claim-some (some (text t)) s h ne = ap (λ (u : String). some (text u)) h
text_claim-some (some (number x)) s h ne = absurd (ne (cc))
text_claim-some (some other) s h ne = absurd (ne (cc))

same_int-eq : (a b : ℤ) → same_int a b ≡ true → a ≡ b
unfolding same_int
same_int-eq (pos m) (pos n) h = ap pos ((eqb_iff m n).0 h)
same_int-eq (pos m) (negsuc n) h = cc
same_int-eq (negsuc m) (pos n) h = cc
same_int-eq (negsuc m) (negsuc n) h = ap negsuc ((eqb_iff m n).0 h)

-- The claim is a number that converts to the index.
abbrev pub IsIndex : Jwt → Option Claim → ℤ → Type 0
IsIndex jwt o idx = (x : ℕ) × (o ≡ some (number x)) × (jwt.int_of x ≡ idx)

index_claim-IsIndex :
    (jwt : Jwt) (o : Option Claim) (idx : ℤ) → index_claim jwt o idx ≡ true → IsIndex jwt o idx
unfolding index_claim
index_claim-IsIndex jwt none idx h = cc
index_claim-IsIndex jwt (some (text s)) idx h = cc
index_claim-IsIndex jwt (some (number x)) idx h = (x, refl, same_int-eq (jwt.int_of x) idx h)
index_claim-IsIndex jwt (some other) idx h = cc

-- The claims name the book, the index and a user, and are those that Verify returns.
pub record Match (jwt : Jwt) (book : String) (idx : ℤ) (claims : String → Option Claim) (c : Claims)
    : Type 0 where
  pub book_given : book ≢ ""
  pub book_claim : claims "book_id" ≡ some (text book)
  pub idx_claim : IsIndex jwt (claims "file_idx") idx
  pub user_given : c.user_id ≢ ""
  pub user_claim : claims "sub" ≡ some (text c.user_id)
  pub same_book : c.book_id ≡ book
  pub same_idx : c.file_idx ≡ idx

module _ (jwt : Jwt) (book : String) (idx : ℤ) where
  check_subject_lem :
      (id sub : String) (c : Claims)
      → check_subject jwt book idx id sub ≡ accepted c
      → (sub ≢ "") × (c.user_id ≡ sub) × (c.book_id ≡ id) × (c.file_idx ≡ idx)
  unfolding check_subject
  check_subject_lem id sub c h = ground (arith, eq_iff sub "")

  check_claims_lem :
      (claims : String → Option Claim) (c : Claims)
      → check_claims jwt book idx claims ≡ accepted c
      → (text_claim (claims "book_id") ≢ "")
        × (text_claim (claims "book_id") ≡ book)
        × (index_claim jwt (claims "file_idx") idx ≡ true)
        × (check_subject jwt book idx (text_claim (claims "book_id")) (text_claim (claims "sub"))
            ≡ accepted c)
  unfolding check_claims
  check_claims_lem claims c h = ground (
    arith,
    eq_iff (text_claim (claims "book_id")) "",
    eq_iff (text_claim (claims "book_id")) book,
  )

  check_claims-Match :
      (claims : String → Option Claim) (c : Claims)
      → check_claims jwt book idx claims ≡ accepted c
      → Match jwt book idx claims c
  check_claims-Match claims c h =
      let (given, same, index, rest) = check_claims_lem claims c h in
      let (named, user, id, index') = check_subject_lem _ _ c rest in
      let book_given : book ≢ "" = λ e. given (same ∙ e) in
      let user_given : c.user_id ≢ "" = λ e. named (sym user ∙ e) in
      record {
        book_given = book_given;
        book_claim = text_claim-some _ book same book_given;
        idx_claim = index_claim-IsIndex jwt _ idx index;
        user_given = user_given;
        user_claim = text_claim-some _ c.user_id (sym user) user_given;
        same_book = id ∙ same;
        same_idx = index';
      }

  -- The token that was parsed has a map of claims that match.
  abbrev pub Accepts : Result Token → Claims → Type 0
  Accepts r c =
      (t : Token) × (claims : String → Option Claim) × (r ≡ ok t)
      × (t.claims ≡ some claims)
      × Match jwt book idx claims c

  check_map-Match :
      (o : Option (String → Option Claim)) (c : Claims)
      → check_map jwt book idx o ≡ accepted c
      → (claims : String → Option Claim) × (o ≡ some claims) × Match jwt book idx claims c
  unfolding check_map
  check_map-Match none c h = cc
  check_map-Match (some claims) c h = (claims, refl, check_claims-Match claims c h)

  check_token-Accepts :
      (r : Result Token) (c : Claims) → check_token jwt book idx r ≡ accepted c → Accepts r c
  unfolding check_token
  check_token-Accepts (err e) c h = cc
  check_token-Accepts (ok t) c h =
      let valid : check_map jwt book idx t.claims ≡ accepted c = ground arith in
      let (claims, same, matches) = check_map-Match t.claims c valid in
      (t, claims, refl, same, matches)

  verify_lem :
      (secret token : String) (c : Claims)
      → verify jwt book idx secret token ≡ accepted c
      → (trim_space secret ≢ "")
        × (check_token jwt book idx (jwt.parse token (key_for (decode_secret jwt secret)) audience)
            ≡ accepted c)
  unfolding verify
  verify_lem secret token c h = ground (arith, eq_iff (trim_space secret) "")

key_for-ok :
    (key : Bytes) (alg : String) (k : Bytes) → key_for key alg ≡ ok k → (alg ≡ "HS256") × (k ≡ key)
unfolding key_for
key_for-ok key alg k h = ground (arith, eq_iff alg "HS256")

module _ (jwt : Jwt) (alg_of : String → String) (IsSigned : Bytes → String → Type 0)
    (IsFor : String → String → Type 0)
    (parse_checks : (token aud : String) (keys : String → Result Bytes) (t : Token)
      → jwt.parse token keys aud ≡ ok t
      → (key : Bytes) × (keys (alg_of token) ≡ ok key) × IsSigned key token × IsFor aud token) where
  -- When jwt.Parse only returns tokens that are signed with the key that the callback gave for
  -- their method, and that name the audience: a token that Verify accepts is signed with HS256 and
  -- the configured secret, which is not blank, is for the audience of ebooks, and its claims name
  -- the expected book, which is not "", the expected file index and a user, which are returned.
  pub verify_sound :
      (book : String) (idx : ℤ) (secret token : String) (c : Claims)
      → verify jwt book idx secret token ≡ accepted c
      → (trim_space secret ≢ "")
        × (alg_of token ≡ "HS256")
        × IsSigned (decode_secret jwt secret) token
        × IsFor audience token
        × Accepts jwt book idx (jwt.parse token (key_for (decode_secret jwt secret)) audience) c
  verify_sound book idx secret token c h =
      let (configured, checked) = verify_lem jwt book idx secret token c h in
      let (t, claims, parsed, same, matches) = check_token-Accepts jwt book idx _ c checked in
      let (key, given, signed, named) = parse_checks token audience _ t parsed in
      let (hs256, same_key) = key_for-ok _ _ key given in
      (
        configured,
        hs256,
        subst (λ k. IsSigned k token) same_key signed,
        named,
        (t, claims, parsed, same, matches),
      )
