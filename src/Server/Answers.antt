-- ===== src/Server/Answers.antt =====
-- Replies that are sent at once.
use mathlib.Core.Path.{subst}
use easy_http.Prelude.{
  ℕ, ◌≡◌, refl, ap, List, [], ◌∷◌, Option, none, some, true, false, ==_iff, if◌then◌else◌,
  Bool-cases, inl, inr,
}
use easy_http.Prelude.Int.{ℤ, pos}
use easy_http.Bytes.{Bytes, text, c_str}
use easy_http.Outcome.{ok}
use easy_http.ParamList.{ParamList}
use easy_http.World.{World, ask, call_ptr, new_container, emit, continue, pure}
use easy_http.World.Calls.{Call, add_header, send_reply, uri_parse, uri_free, set_on_complete_cb}
use easy_http.World.External.{Platform}
use easy_http.World.Yields.{OfResult, Yields, bind-Yields, then-Yields}
use easy_http.Queries.{queries}
use easy_http.RequestBase.{
  RequestBase, response, received, of_received_from, of_received, headers, release,
}
use easy_http.RequestBase.Headers.{push_header, push_headers}
use easy_http.RequestBase.Reply.{is_request, default_headers, send_out, reply}
use easy_http.Request.{Request, of_event}
use easy_http.Response.{send, of_request}
use easy_http.Server.{Server, serve, on_request, request_handler}

-- The calls that set the headers of a reply, before other calls.
unfoldable pub header_calls : ℕ → ParamList → List Call → List Call
header_calls e_request [] calls = calls
header_calls e_request ((key, value) ∷ headers) calls =
    header_calls e_request headers (add_header e_request (c_str key) (c_str value) ∷ calls)

module _ (pf : Platform) where
  pub push_headers-accepted :
      (self : RequestBase)
      → ((calls : List Call) (key value : Bytes)
          → pf.answer calls (add_header self.e_request key value) ≡ pos 0)
      → (headers : ParamList) (w : World)
      → push_headers pf self headers w
        ≡ (ok tt, record w { calls = header_calls self.e_request headers w.calls })
  unfolding push_headers push_header header_calls
  push_headers-accepted self accepted [] w = refl
  push_headers-accepted self accepted ((key, value) ∷ headers) w =
      rw (accepted w.calls (c_str key) (c_str value)) (
        push_headers-accepted self accepted headers
          (record w { calls = add_header self.e_request (c_str key) (c_str value) ∷ w.calls }))

  -- A request that was received is answered at once.
  abbrev pub IsPlain : ℕ → RequestBase → Type 0
  IsPlain e_request self =
      (self.request_type ≡ response) × (self.is_chunked ≡ false) × (self.e_request ≡ e_request)

  of_received_from-IsPlain :
      (e_request : ℕ) (url : Option Bytes)
      → Yields (IsPlain e_request) (of_received_from pf e_request url)
  unfolding of_received_from
  of_received_from-IsPlain e_request none = record { at = λ w. tt }
  of_received_from-IsPlain e_request (some url) =
      bind-Yields (IsPlain e_request) (call_ptr pf (uri_parse url true)) _ (λ uri.
        bind-Yields (IsPlain e_request) new_container _ (λ con.
          bind-Yields (IsPlain e_request) (emit (set_on_complete_cb e_request con)) _ (λ _.
            bind-Yields (IsPlain e_request) (queries pf uri) _ (λ q.
              bind-Yields (IsPlain e_request) (headers pf e_request)
                (λ hs. pure (received e_request uri con q hs))
                (λ hs. record { at = λ w. (refl, refl, refl) })))))

  of_received-IsPlain : (e_request : ℕ) → Yields (IsPlain e_request) (of_received pf e_request)
  unfolding of_received
  of_received-IsPlain e_request =
      bind-Yields (IsPlain e_request) (ask (λ h. pf.request_uri h e_request)) _
        (of_received_from-IsPlain e_request)

  pub of_event-IsPlain :
      (e_request : ℕ)
      → Yields (λ (request : Request). IsPlain e_request request.base) (of_event pf e_request)
  unfolding of_event
  of_event-IsPlain e_request =
      then-Yields (IsPlain e_request) (λ (request : Request). IsPlain e_request request.base)
        (of_received pf e_request) _ (of_received-IsPlain e_request)
        (λ base plain. record { at = λ w. plain })

  -- The calls of the destructors of a request and of a response made of it, after other calls.
  abbrev pub uri_calls : Request → List Call → List Call
  uri_calls request calls =
      if pf.is_kept request.base.cb_container then calls else uri_free request.base.e_uri ∷ calls

  pub release-uri_calls :
      (request : Request) (w : World)
      → release pf request.base w ≡ record w { calls = uri_calls request w.calls }
  release-uri_calls request w = elim (Bool-cases (pf.is_kept request.base.cb_container)) [
    | inl e ↦ rw e refl
    | inr e ↦ rw e refl
  ]

  reply-plain :
      (self : RequestBase) (status_code : ℤ) (w : World)
      → ((calls : List Call) (key value : Bytes)
          → pf.answer calls (add_header self.e_request key value) ≡ pos 0)
      → self.request_type ≡ response
      → self.is_chunked ≡ false
      → reply pf self status_code w ≡ (
        ok none,
        record w {
          calls =
              send_reply self.e_request status_code (text "ok") true
              ∷ header_calls self.e_request default_headers w.calls;
        },
      )
  unfolding reply send_out
  reply-plain self status_code w accepted t c =
      let u : is_request self.request_type ≡ false = ap is_request t in
      rw (u, push_headers-accepted self accepted default_headers w, continue, c)

  -- If a request is read, the server's handler gives a response made of it, and libevent takes every
  -- header, then the libevent callback sets the default headers, sends the response's status and
  -- whatever content it has, and frees the URI that the request and the response share, if the
  -- program keeps no copy of them; it does nothing else after the handler.
  pub on_request-of_request :
      (s : Server) (e_request : ℕ) (request : Request) (code : ℤ) (w v u : World)
      → of_event pf e_request w ≡ (ok request, v)
      → request_handler pf s request v ≡ (ok (of_request request.base code), u)
      → ((calls : List Call) (key value : Bytes)
          → pf.answer calls (add_header e_request key value) ≡ pos 0)
      → on_request pf s e_request w ≡ (
        ok none,
        record u {
          calls = uri_calls request (
              send_reply e_request code (text "ok") true
              ∷ header_calls e_request default_headers u.calls);
        },
      )
  unfolding on_request serve send of_request
  on_request-of_request s e_request request code w v u made handled accepted =
      let (t, c, e) =
        subst (OfResult (λ (r : Request). IsPlain e_request r.base)) made
          ((of_event-IsPlain e_request).at w) in
      let accepted' : (calls : List Call) (key value : Bytes)
          → pf.answer calls (add_header request.base.e_request key value) ≡ pos 0 =
        rw e accepted in
      let shared = (==_iff request.base.cb_container request.base.cb_container).1 refl in
      rw (made, continue, handled, reply-plain request.base code u accepted' t c, shared, e)
        (ap (λ v. (ok none, v)) (release-uri_calls request _))
