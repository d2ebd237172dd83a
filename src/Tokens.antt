-- ===== src/Tokens.antt =====
-- internal/tokens/verify.go: the signed tokens of the media URLs.
pub mod Sound
use continuum_plugin_bookwar.Prelude.{
  ℕ, String, Bool, ◌||◌, not, Option, none, some, List, [], ◌∷◌, Bytes, codes, utf8, trim_space,
  ◌==◌, ℤ, pos, negsuc, eqb, false, ◌++◌, if◌then◌else◌,
}
use continuum_plugin_bookwar.Result.{Result, ok, err}

-- a value of a claim: what the code tests for, by its type
pub data Claim : Type 0 where
  text : String → Claim
  number : ℕ → Claim
  other : Claim

-- What jwt.Parse returns without an error; the claims are `none` when they are no MapClaims.
pub record Token : Type 0 where
  pub valid : Bool
  pub claims : Option (String → Option Claim)

-- golang-jwt and encoding/base64. The second argument of `parse` is the callback that gives the
-- key for a method's name, the third the audience of WithAudience; WithExpirationRequired is set.
-- A float64 is its bits, and `int_of` converts it to int.
pub record Jwt : Type 0 where
  pub parse : String → (String → Result Bytes) → String → Result Token
  pub std_decode : String → Option Bytes
  pub raw_decode : String → Option Bytes
  pub int_of : ℕ → ℤ

abbrev pub audience : String
audience = "ebook_backend"

abbrev pub cover_file_idx : ℤ
cover_file_idx = negsuc 0

abbrev pub file_file_idx : ℤ
file_file_idx = pos 0

pub record Claims : Type 0 where
  pub user_id : String
  pub book_id : String
  pub file_idx : ℤ

-- `other_error` stands for the errors that callers only print
pub data TokenError : Type 0 where
  secret_unconfigured : TokenError
  token_missing : TokenError
  other_error : Bytes → TokenError

pub data Verified : Type 0 where
  accepted : Claims → Verified
  rejected : TokenError → Verified

-- `if b, err := decode(secret); err == nil && len(b) > 0 { return b }`
decoded_or : Option Bytes → Bytes → Bytes
decoded_or none otherwise = otherwise
decoded_or (some []) otherwise = otherwise
decoded_or (some (c ∷ b)) otherwise = c ∷ b

unfoldable pub decode_secret : Jwt → String → Bytes
unfolding decoded_or
decode_secret jwt secret =
    decoded_or (jwt.std_decode secret) (decoded_or (jwt.raw_decode secret) (utf8 secret))

-- the callback: only HS256 gets the key
unfoldable pub key_for : Bytes → String → Result Bytes
key_for key alg =
    if alg == "HS256" then ok key else err (codes "unexpected signing method: " ++ utf8 alg)

-- `s, _ := claims[name].(string)`
unfoldable pub text_claim : Option Claim → String
text_claim none = ""
text_claim (some (text s)) = s
text_claim (some (number x)) = ""
text_claim (some other) = ""

-- `==` of two ints
unfoldable pub same_int : ℤ → ℤ → Bool
same_int (pos m) (pos n) = eqb m n
same_int (pos m) (negsuc n) = false
same_int (negsuc m) (pos n) = false
same_int (negsuc m) (negsuc n) = eqb m n

-- `fidx, ok := claims["file_idx"].(float64); !ok || int(fidx) != expected` is false
unfoldable pub index_claim : Jwt → Option Claim → ℤ → Bool
unfolding same_int
index_claim jwt none expected = false
index_claim jwt (some (text s)) expected = false
index_claim jwt (some (number x)) expected = same_int (jwt.int_of x) expected
index_claim jwt (some other) expected = false

module _ (jwt : Jwt) (book : String) (idx : ℤ) where
  check_subject : String → String → Verified
  check_subject id sub =
      if sub == ""
      then rejected (other_error (codes "sub required"))
      else accepted (record { user_id = sub; book_id = id; file_idx = idx })

  unfoldable pub check_claims : (String → Option Claim) → Verified
  unfolding check_subject
  check_claims claims =
      let id = text_claim (claims "book_id") in
      if id == "" || not (id == book)
      then rejected (other_error (codes "book_id mismatch"))
      else if not (index_claim jwt (claims "file_idx") idx)
      then rejected (other_error (codes "file_idx mismatch"))
      else check_subject id (text_claim (claims "sub"))

  check_map : Option (String → Option Claim) → Verified
  unfolding check_claims
  check_map none = rejected (other_error (codes "claims not MapClaims"))
  check_map (some claims) = check_claims claims

  unfoldable pub check_token : Result Token → Verified
  unfolding check_map
  check_token (err e) = rejected (other_error (codes "verify: " ++ e))
  check_token (ok t) =
      if not t.valid then rejected (other_error (codes "token invalid")) else check_map t.claims

  unfoldable pub verify : String → String → Verified
  unfolding check_token
  verify secret token =
      if trim_space secret == ""
      then rejected secret_unconfigured
      else if token == ""
      then rejected token_missing
      else check_token (jwt.parse token (key_for (decode_secret jwt secret)) audience)
