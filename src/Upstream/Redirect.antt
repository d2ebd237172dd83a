-- ===== src/Upstream/Redirect.antt =====
-- CheckRedirect of NewClient, internal/bookwarehouse/client.go: which requests a call of hc.Do sends
-- when the upstream service answers with redirects.
use continuum_plugin_bookwar.Prelude.{
  ◌≤◌, ◌≡◌, refl, String, Option, none, List, [], ◌∷◌, ◌++◌, ◌==◌, leb, length, length-append, not,
  All, All-append, arith, if◌then◌else◌,
}

-- a request, with the parts of its URL that count here and the value of its X-API-Key
pub record Hop : Type 0 where
  pub scheme : String
  pub host : String
  pub api_key : Option String

pub data Decision : Type 0 where
  follow : (r : Hop) → Decision  -- nil: `r`, as the function left it, is sent
  use_last_response : Decision
  out_of_range : Decision  -- `via[0]` of an empty list panics

unfoldable pub check_redirect : Hop → List Hop → Decision
check_redirect r [] = out_of_range
check_redirect r (first ∷ via) =
    if leb 10 (length (first ∷ via))
    then use_last_response
    else if not (r.host == first.host)
    then follow (record r { api_key = none })
    else follow r

-- The requests that one call of hc.Do has sent after `first`, oldest first, as net/http documents
-- it: CheckRedirect is asked before each, with the headers of the first request on the new one and
-- the requests made already.
pub data Chain (first : Hop) : List Hop → Type 0 where
  start : Chain first []
  redirected :
      {later : List Hop} {r : Hop} (scheme host : String)
      → Chain first later
      → check_redirect
          (record { scheme = scheme; host = host; api_key = first.api_key })
          (first ∷ later)
        ≡ follow r
      → Chain first (later ++ r ∷ [])

-- The key of the first request goes to its host only.
pub Keyed : Hop → Hop → Type 0
Keyed first r = r.api_key ≡ (if r.host == first.host then first.api_key else none)

check_redirect-Keyed :
    (first r sent : Hop) (later : List Hop)
    → r.api_key ≡ first.api_key
    → check_redirect r (first ∷ later) ≡ follow sent
    → (length later ≤ 8) × Keyed first sent
unfolding check_redirect Keyed
check_redirect-Keyed first r sent later same h = ground arith

-- However the upstream service redirects a request, no more than nine requests follow it, and
-- each of them carries the key of the first if it goes to the host of the first, and no key if not.
pub Chain-Keyed :
    (first : Hop) (later : List Hop)
    → Chain first later
    → (length later ≤ 9) × All (Keyed first) later
Chain-Keyed first later start = (omega arith, tt)
Chain-Keyed first later (redirected {later = before} {r} scheme host chain h) =
    let (_, kept) = Chain-Keyed first before chain in
    let (room, keyed) = check_redirect-Keyed first _ r before refl h in
    (
      omega (arith, room, length-append before (r ∷ [])),
      All-append (Keyed first) before (r ∷ []) kept (keyed, tt),
    )
