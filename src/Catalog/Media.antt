-- ===== src/Catalog/Media.antt =====
-- Cover and File of internal/catalog/handler.go, which a token opens.
use continuum_plugin_bookwar.Prelude.{
  ◌≡◌, refl, String, none, List, [], ◌∷◌, ◌++◌, Bytes, codes, ◌==◌, Option-cases, inl, inr, some,
  if◌then◌else◌,
}
use continuum_plugin_bookwar.Result.{Result, ok, err}
use continuum_plugin_bookwar.World.{Env, World, Act, Request, pure, ◌>>=◌, send}
use continuum_plugin_bookwar.Url.{path_escape}
use continuum_plugin_bookwar.Upstream.{Client, Stream, get_stream, get_stream_with_range}
use continuum_plugin_bookwar.Tokens.{
  Jwt, Verified, accepted, rejected, TokenError, secret_unconfigured, token_missing, other_error,
  Claims, verify, cover_file_idx, file_file_idx,
}
use continuum_plugin_bookwar.Catalog.Types.{
  HttpRequest, Response, message, reason, streamed, json, upstream_error,
}

-- writeTokenError
unfoldable pub token_error : TokenError → Response
token_error secret_unconfigured = json 503 (message "media signing secret not configured")
token_error token_missing = json 401 (message "media token missing")
token_error (other_error e) = json 401 (reason e)

-- the headers of a list that the answer has
unfoldable pub copied_headers : (String → String) → List String → List (String × String)
copied_headers header [] = []
copied_headers header (k ∷ ks) =
    let rest = copied_headers header ks in if header k == "" then rest else (k, header k) ∷ rest

unfoldable pub relay : List String → Result Stream → Response
unfolding upstream_error copied_headers
relay names (err e) = upstream_error
relay names (ok s) = record {
  status = s.status;
  headers = copied_headers s.header names;
  content = streamed s.body;
}

abbrev pub cover_headers : List String
cover_headers = "Content-Type" ∷ "Content-Length" ∷ "ETag" ∷ "Cache-Control" ∷ "Last-Modified" ∷ []

abbrev pub file_headers : List String
file_headers =
    "Content-Type" ∷ "Content-Length" ∷ "Content-Disposition" ∷ "Content-Range" ∷ "ETag"
    ∷ "Cache-Control" ∷ "Last-Modified" ∷ "Accept-Ranges" ∷ []

unfoldable pub media_cover_path : String → String → Bytes
media_cover_path id size =
    let upstream_size = if size == "large" then "original" else size in
    codes "/api/v1/books/" ++ (path_escape id ++ (codes "/cover/" ++ path_escape upstream_size))

unfoldable pub download_path : String → Bytes
download_path id = codes "/api/v1/books/" ++ (path_escape id ++ codes "/download")

module _ (env : Env) (c : Client) (jwt : Jwt) (secret : String) where
  -- what follows the verification of the token
  unfoldable pub gated : Verified → Act Response → Act Response
  unfolding token_error
  gated (rejected e) act = pure (token_error e)
  gated (accepted claims) act = act

  unfoldable pub cover : HttpRequest → Act Response
  unfolding gated media_cover_path relay
  cover r =
      let id = r.url_param "book_id" in
      gated (verify jwt id cover_file_idx secret (r.query "token")) do
        answer ← get_stream env c (media_cover_path id (r.url_param "size"))
        pure (relay cover_headers answer)

  unfoldable pub file : HttpRequest → Act Response
  unfolding gated download_path relay
  file r =
      let id = r.url_param "book_id" in
      gated (verify jwt id file_file_idx secret (r.query "token")) do
        answer ← get_stream_with_range env c (download_path id) r.range_header
        pure (relay file_headers answer)

  pub cover-rejected :
      (r : HttpRequest) (e : TokenError) (w : World)
      → verify jwt (r.url_param "book_id") cover_file_idx secret (r.query "token") ≡ rejected e
      → cover r w ≡ (token_error e, w)
  unfolding cover gated
  cover-rejected r e w h = rw h refl

  pub file-rejected :
      (r : HttpRequest) (e : TokenError) (w : World)
      → verify jwt (r.url_param "book_id") file_file_idx secret (r.query "token") ≡ rejected e
      → file r w ≡ (token_error e, w)
  unfolding file gated
  file-rejected r e w h = rw h refl

  -- What a media handler did: it rejected the token and changed nothing; or the token was accepted, and
  -- the one request was sent, or its URL did not parse and the answer is the error of a failed
  -- request.
  pub data Gate (v : Verified) (sent : Request) (w w' : World) (answer : Response) : Type 0 where
    closed :
        (e : TokenError)
        → v ≡ rejected e
        → w' ≡ w
        → answer ≡ token_error e
        → Gate v sent w w' answer
    opened :
        (claims : Claims)
        → v ≡ accepted claims
        → env.bad_url sent.url ≡ none
        → w'.sent ≡ w.sent ++ sent ∷ []
        → w'.table ≡ w.table
        → Gate v sent w w' answer
    unsent :
        (claims : Claims) (e : Bytes)
        → v ≡ accepted claims
        → env.bad_url sent.url ≡ some e
        → w' ≡ w
        → answer ≡ upstream_error
        → Gate v sent w w' answer

  abbrev pub media_request : Bytes → String → Request
  media_request path range = record {
    method = "GET";
    url = c.base_url ++ path;
    api_key = c.api_key;
    body = [];
    range_header = range;
  }

  streamed-Gate :
      (claims : Claims) (names : List String) (path : Bytes) (range : String) (w : World)
      → let r = (do answer ← get_stream_with_range env c path range; pure (relay names answer)) w in
        Gate (accepted claims) (media_request path range) w r.1 r.0
  unfolding get_stream_with_range ◌>>=◌ send relay
  streamed-Gate claims names path range w = elim (Option-cases (env.bad_url (c.base_url ++ path))) [
    | inl parses ↦ rw parses (opened claims refl parses refl refl)
    | inr (e, bad) ↦ rw bad (unsent claims e refl bad refl refl)
  ]

  gated-Gate :
      (v : Verified) (names : List String) (path : Bytes) (range : String) (w : World)
      → let r =
          gated v
            (do answer ← get_stream_with_range env c path range; pure (relay names answer))
            w in
        Gate v (media_request path range) w r.1 r.0
  unfolding gated
  gated-Gate (rejected e) names path range w = closed e refl refl refl
  gated-Gate (accepted claims) names path range w = streamed-Gate claims names path range w

  -- Cover and File answer a request whose token Verify rejects with the error of that rejection and
  -- do nothing else. Else they send one GET for the escaped id: Cover for the size, `original` in
  -- place of `large`, and File with the Range of the request; or, when the URL of that GET does not
  -- parse, they send nothing and answer with the error of a failed request.
  pub cover-file-Gate :
      (r : HttpRequest) (w : World)
      → let id = r.url_param "book_id" in
        let token = r.query "token" in
        Gate
          (verify jwt id cover_file_idx secret token)
          (media_request (media_cover_path id (r.url_param "size")) "")
          w
          (cover r w).1
          (cover r w).0
        × Gate
            (verify jwt id file_file_idx secret token)
            (media_request (download_path id) r.range_header)
            w
            (file r w).1
            (file r w).0
  unfolding cover file get_stream
  cover-file-Gate r w =
      let id = r.url_param "book_id" in
      (
        gated-Gate (verify jwt id cover_file_idx secret (r.query "token")) cover_headers _ "" w,
        gated-Gate (verify jwt id file_file_idx secret (r.query "token")) file_headers _
            r.range_header w,
      )
