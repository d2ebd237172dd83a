-- ===== src/Adapter/Guards.antt =====
-- What Handle does with a call.
use continuum_plugin_bookwar.Prelude.{
  ap, ◌<◌, ◌≤◌, ◌≡◌, refl, true, false, Bool-cases, Option-cases, inl, inr, Option, none, some,
  Bytes, ltb, length, ltb→lt, ltb_false→le,
}
use continuum_plugin_bookwar.Adapter.{
  max_body_bytes, is_http_token, RpcRequest, RpcResponse, Recorded, HttpLib, Handler, err_response,
  not_ready, first_values, respond, message_of, serve, dispatch, handle,
}

module _ (lib : HttpLib) where
  -- The handler may run: the body is not too large, the method is a token, and the message parses.
  pub record Admitted (req : RpcRequest) : Type 0 where
    pub small : length req.body ≤ max_body_bytes
    pub token : is_http_token (message_of lib req).method ≡ true
    pub parses : lib.bad_request (message_of lib req).method (message_of lib req).url ≡ none

  -- The handler does not run, for this reason.
  pub data Rejected (req : RpcRequest) : RpcResponse → Type 0 where
    too_large :
        max_body_bytes < length req.body → Rejected req (err_response 413 "request body too large")
    bad_method :
        is_http_token (message_of lib req).method ≡ false
        → Rejected req (err_response 400 "invalid method")
    unparsed :
        (e : Bytes)
        → lib.bad_request (message_of lib req).method (message_of lib req).url ≡ some e
        → Rejected req (err_response 400 "invalid request")

module _ {S : Type 0} (lib : HttpLib) where
  -- What Handle did.
  pub data Handled (handler : Option (Handler S)) (req : RpcRequest) (s : S)
      : RpcResponse × S → Type 0 where
    unready : handler ≡ none → Handled handler req s (not_ready, s)
    rejected :
        {answer : RpcResponse} (h : Handler S)
        → handler ≡ some h
        → Rejected lib req answer
        → Handled handler req s (answer, s)
    crashed :
        (h : Handler S) (s' : S)
        → handler ≡ some h
        → Admitted lib req
        → h (message_of lib req) s ≡ (none, s')
        → Handled handler req s (err_response 500 "internal error", s')
    served :
        (h : Handler S) (r : Recorded) (s' : S)
        → handler ≡ some h
        → Admitted lib req
        → h (message_of lib req) s ≡ (some r, s')
        → Handled handler req s
            (record { status_code = r.code; headers = first_values r.headers; body = r.body }, s')

  respond-Handled :
      (h : Handler S) (req : RpcRequest) (s s' : S) (o : Option Recorded)
      → Admitted lib req
      → h (message_of lib req) s ≡ (o, s')
      → Handled (some h) req s (respond o, s')
  unfolding respond
  respond-Handled h req s s' none a e = crashed h s' refl a e
  respond-Handled h req s s' (some r) a e = served h r s' refl a e

  dispatch-Handled :
      (h : Handler S) (req : RpcRequest) (s : S) → Handled (some h) req s (dispatch lib h req s)
  unfolding dispatch serve
  dispatch-Handled h req s =
      let m = message_of lib req in
      elim (Bool-cases (ltb max_body_bytes (length req.body))) [
        | inl large ↦
            rw large (rejected h refl (too_large (ltb→lt max_body_bytes (length req.body) large)))
        | inr small ↦ elim (Bool-cases (is_http_token m.method)) [
          | inr other ↦ rw (small, other) (rejected h refl (bad_method other))
          | inl token ↦ elim (Option-cases (lib.bad_request m.method m.url)) [
            | inr (e, failed) ↦ rw (small, token, failed) (rejected h refl (unparsed e failed))
            | inl parses ↦
                let (o, s') = h m s in
                rw (small, token, parses)
                  (respond-Handled h req s s' o
                    (record {
                      small = ltb_false→le max_body_bytes (length req.body) small;
                      token = token;
                      parses = parses;
                    })
                    refl)
          ]
        ]
      ]

  -- Handle answers every call: with 503 while there is no handler; with 413 or 400, and without
  -- running the handler, when the body is larger than 8 MiB, the method is no token, or the URL
  -- does not parse; with 500 when the handler panics; and else with what the handler recorded.
  pub handle-Handled :
      (handler : Option (Handler S)) (req : RpcRequest) (s : S)
      → Handled handler req s (handle lib handler req s)
  unfolding handle
  handle-Handled none req s = unready refl
  handle-Handled (some h) req s = dispatch-Handled h req s

  -- What holds of the state, and of the state that the handler leaves, holds after a call.
  pub handle-keeps :
      (P : S → Type 0) (h : Handler S) (req : RpcRequest) (s : S)
      → P s
      → P (h (message_of lib req) s).1
      → P (handle lib (some h) req s).1
  unfolding handle dispatch serve
  handle-keeps P h req s before after =
      let m = message_of lib req in
      elim (Bool-cases (ltb max_body_bytes (length req.body))) [
        | inl large ↦ rw large before
        | inr small ↦ elim (Bool-cases (is_http_token m.method)) [
          | inr other ↦ rw (small, other) before
          | inl token ↦ elim (Option-cases (lib.bad_request m.method m.url)) [
            | inr (_, failed) ↦ rw (small, token, failed) before
            | inl parses ↦ rw (small, token, parses) after
          ]
        ]
      ]

  -- Two calls agree when the handler does.
  pub handle-agrees :
      (R : S → S → Type 0) (h : Handler S) (req : RpcRequest) (s t : S)
      → R s t
      → ((h (message_of lib req) s).0 ≡ (h (message_of lib req) t).0)
        × R (h (message_of lib req) s).1 (h (message_of lib req) t).1
      → ((handle lib (some h) req s).0 ≡ (handle lib (some h) req t).0)
        × R (handle lib (some h) req s).1 (handle lib (some h) req t).1
  unfolding handle dispatch serve
  handle-agrees R h req s t before (same, after) =
      let m = message_of lib req in
      elim (Bool-cases (ltb max_body_bytes (length req.body))) [
        | inl large ↦ rw large (refl, before)
        | inr small ↦ elim (Bool-cases (is_http_token m.method)) [
          | inr other ↦ rw (small, other) (refl, before)
          | inl token ↦ elim (Option-cases (lib.bad_request m.method m.url)) [
            | inr (_, failed) ↦ rw (small, token, failed) (refl, before)
            | inl parses ↦ rw (small, token, parses) (ap respond same, after)
          ]
        ]
      ]

  -- A call leaves the state when the handler does.
  pub handle_unchanged :
      (h : Handler S) (req : RpcRequest) (s : S)
      → (h (message_of lib req) s).1 ≡ s
      → (handle lib (some h) req s).1 ≡ s
  handle_unchanged h req s e = handle-keeps (λ t. t ≡ s) h req s refl e
