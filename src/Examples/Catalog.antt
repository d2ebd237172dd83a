-- ===== src/Examples/Catalog.antt =====
-- The theorems on the HTTP handlers and their tokens at concrete data.
use continuum_plugin_bookwar.Prelude.{
  ◌≡◌, ◌≢◌, refl, ◌==◌, Option, String, Bool, true, false, ◌&&◌, none, some, [], ◌∷◌, codes, eqb,
  eq_iff, arith, Bool-cases, inl, inr, Bytes, utf8, pos, negsuc, atoi, trim_space, if◌then◌else◌,
}
use continuum_plugin_bookwar.Result.{Result, ok, err}
use continuum_plugin_bookwar.Tokens.{
  Claim, text, number, Token, Jwt, Claims, accepted, audience, cover_file_idx, decode_secret,
  verify, key_for, text_claim, index_claim,
}
use continuum_plugin_bookwar.Tokens.Sound.{Accepts, verify_sound}
use continuum_plugin_bookwar.Books.Dedup.Sent.{SentAtMost}
use continuum_plugin_bookwar.Catalog.Types.{HttpRequest}
use continuum_plugin_bookwar.Catalog.Params.{parse_list_params}
use continuum_plugin_bookwar.Catalog.Handlers.{list, search, list-search-SentAtMost}
use continuum_plugin_bookwar.Catalog.Media.{
  Gate, media_request, media_cover_path, download_path, cover, file, cover-file-Gate,
}
use continuum_plugin_bookwar.Examples.Data.{calm, client, world}
use continuum_plugin_bookwar.Examples.Books.{lib}

abbrev http_query : String → String
http_query k =
    if k == "limit"
    then "5000"
    else if k == "sort"
    then "TITLE"
    else if k == "library_id"
    then "7"
    else if k == "token"
    then "signed"
    else ""

abbrev request : HttpRequest
request = record { query = http_query; url_param = λ _. "b1"; range_header = "bytes=0-" }

abbrev cover_claims : String → Option Claim
cover_claims k =
    if k == "book_id"
    then some (text "b1")
    else if k == "file_idx"
    then some (number 0)
    else if k == "sub"
    then some (text "u1")
    else none

-- equality of texts in bytes
abbrev same_bytes : Bytes → Bytes → Bool
same_bytes [] [] = true
same_bytes [] (c ∷ t) = false
same_bytes (c ∷ s) [] = false
same_bytes (c ∷ s) (d ∷ t) = let rest = same_bytes s t in eqb c d && rest

same_bytes-eq : (s t : Bytes) → same_bytes s t ≡ true → s ≡ t
same_bytes-eq [] [] h = refl
same_bytes-eq [] (c ∷ t) h = cc
same_bytes-eq (c ∷ s) [] h = cc
same_bytes-eq (c ∷ s) (d ∷ t) h = ground (arith, same_bytes-eq s t)

-- A token here is signed with the key `secret` and for the audience of ebooks, and the parser tests
-- both.
abbrev checked : Result Bytes → String → Result Token
checked (ok key) aud =
    if same_bytes key (codes "secret") && aud == "ebook_backend"
    then ok (record { valid = true; claims = some cover_claims })
    else err (codes "invalid token")
checked (err e) aud = err e

abbrev pub jwt : Jwt
jwt = record {
  parse = λ token keys aud. checked (keys "HS256") aud;
  std_decode = λ _. none;
  raw_decode = λ _. none;
  int_of = λ _. negsuc 0;
}

abbrev alg_of : String → String
alg_of token = "HS256"

abbrev IsSigned : Bytes → String → Type 0
IsSigned key token = key ≡ codes "secret"

abbrev IsFor : String → String → Type 0
IsFor aud token = aud ≡ "ebook_backend"

checked-ok :
    (k : Result Bytes) (aud token : String) (t : Token)
    → checked k aud ≡ ok t
    → (key : Bytes) × (k ≡ ok key) × IsSigned key token × IsFor aud token
checked-ok (err e) aud token t h = cc
checked-ok (ok key) aud token t h = elim (Bool-cases (same_bytes key (codes "secret"))) [
  | inr forged ↦ cc (rw forged at h)
  | inl signed ↦ elim (Bool-cases (aud == "ebook_backend")) [
    | inr foreign ↦ cc (rw (signed, foreign) at h)
    | inl ours ↦
        (key, refl, same_bytes-eq key (codes "secret") signed, (eq_iff aud "ebook_backend").0 ours)
  ]
]

abbrev cover_token : Claims
cover_token = record { user_id = "u1"; book_id = "b1"; file_idx = negsuc 0 }

is_accepted : verify jwt "b1" cover_file_idx "secret" "signed" ≡ accepted cover_token
unfolding verify trim_space key_for text_claim index_claim decode_secret utf8
is_accepted = refl

verify_sound_example :
    (trim_space "secret" ≢ "")
    × (alg_of "signed" ≡ "HS256")
    × IsSigned (decode_secret jwt "secret") "signed"
    × IsFor audience "signed"
    × Accepts jwt "b1" cover_file_idx
        (jwt.parse "signed" (key_for (decode_secret jwt "secret")) audience)
        cover_token
verify_sound_example =
    verify_sound jwt alg_of IsSigned IsFor
      (λ token aud keys t h. checked-ok (keys "HS256") aud token t h) "b1" cover_file_idx "secret"
      "signed" cover_token is_accepted

clamped_limit : (parse_list_params request).limit ≡ pos 100
unfolding parse_list_params atoi utf8
clamped_limit = refl

seventh : atoi (utf8 (request.query "library_id")) ≡ some (pos 7)
unfolding atoi utf8
seventh = refl

not_ours : pos 7 ≢ pos 1
not_ours e = cc

list-search-SentAtMost_example :
    SentAtMost 5 (world []) (list calm lib client request (world [])).1
    × SentAtMost 5 (world []) (search calm lib client request (world [])).1
list-search-SentAtMost_example = list-search-SentAtMost calm lib client request (world [])

cover-file-Gate_example :
    Gate calm client jwt "secret"
      (verify jwt "b1" cover_file_idx "secret" "signed")
      (media_request calm client jwt "secret" (media_cover_path "b1" "b1") "")
      (world [])
      (cover calm client jwt "secret" request (world [])).1
      (cover calm client jwt "secret" request (world [])).0
    × Gate calm client jwt "secret"
        (verify jwt "b1" (pos 0) "secret" "signed")
        (media_request calm client jwt "secret" (download_path "b1") "bytes=0-")
        (world [])
        (file calm client jwt "secret" request (world [])).1
        (file calm client jwt "secret" request (world [])).0
cover-file-Gate_example = cover-file-Gate calm client jwt "secret" request (world [])
