-- ===== src/Client/Release.antt =====
-- The connection of a request that a client makes and sends.
use easy_http.Prelude.{
  ℕ, ◌+◌, ◌==◌, ◌≡◌, ◌∙◌, arith, ◌∷◌, Option, none, some, Bool, true, false, if◌then◌else◌,
  Bool-cases, inl, inr,
}
use easy_http.Prelude.Int.{ℤ}
use easy_http.Bytes.{Bytes, c_str}
use easy_http.Outcome.{ok}
use easy_http.World.{World}
use easy_http.World.Calls.{Call, uri_free, uri_parse, free_on_completion, connection_free}
use easy_http.World.Count.{total}
use easy_http.World.External.{Platform}
use easy_http.Queries.{queries}
use easy_http.RequestBase.{RequestMethod, of_url}
use easy_http.RequestBase.Headers.{push_header}
use easy_http.Request.{Request, of_connection, send_request}
use easy_http.RequestBase.Send.{send, send_async}
use easy_http.RequestBase.Fields.{full_url}
use easy_http.Client.{Client, connect, with_url, set_uri, create_request}

abbrev pub hands : ℕ → Call → ℕ
hands e (free_on_completion x) = if x == e then 1 else 0
hands e _ = 0

abbrev pub frees_connection : ℕ → Call → ℕ
frees_connection e (connection_free x) = if x == e then 1 else 0
frees_connection e _ = 0

module _ (pf : Platform) where
  connect-hands :
      (method : RequestMethod) (url : Bytes) (handler : ℕ) (is_chunked : Bool) (self : Client)
      (request : Request) (w v : World)
      → connect pf method url handler is_chunked self w ≡ (ok request, v)
      → total (hands request.e_con) v.calls ≡ total (hands request.e_con) w.calls + 1
  unfolding connect of_connection of_url queries push_header total
  connect-hands method url handler true self request w v e = ground arith
  connect-hands method url handler false self request w v e = ground arith

  connect-frees :
      (method : RequestMethod) (url : Bytes) (handler : ℕ) (is_chunked : Bool) (self : Client)
      (request : Request) (w v : World)
      → connect pf method url handler is_chunked self w ≡ (ok request, v)
      → total (frees_connection request.e_con) v.calls
        ≡ total (frees_connection request.e_con) w.calls
  unfolding connect of_connection of_url queries push_header total
  connect-frees method url handler true self request w v e = ground arith
  connect-frees method url handler false self request w v e = ground arith

  -- One more is handed over, and no more are freed.
  abbrev HandedOver : Request → World → World → Type 0
  HandedOver request w v =
      (total (hands request.e_con) v.calls ≡ total (hands request.e_con) w.calls + 1)
      × (total (frees_connection request.e_con) v.calls
          ≡ total (frees_connection request.e_con) w.calls)

  with_url-HandedOver :
      (uri : ℕ) (method : RequestMethod) (handler : ℕ) (is_chunked : Bool) (self : Client) (r : ℤ)
      (joined : Option Bytes) (request : Request) (w v : World)
      → with_url pf uri method handler is_chunked self r joined w ≡ (ok request, v)
      → HandedOver request w v
  unfolding with_url total
  with_url-HandedOver uri method handler is_chunked self r none request w v e = cc
  with_url-HandedOver uri method handler is_chunked self r (some url) request w v e =
      let after : World = record w { calls = uri_free uri ∷ w.calls } in
      (
        ground (arith, connect-hands method (c_str url) handler is_chunked self request after v),
        ground (arith, connect-frees method (c_str url) handler is_chunked self request after v),
      )

  create_request-HandedOver :
      (method : RequestMethod) (path : Bytes) (handler : ℕ) (is_chunked : Bool) (self : Client)
      (request : Request) (w v : World)
      → create_request pf method path handler is_chunked self w ≡ (ok request, v)
      → HandedOver request w v
  unfolding create_request set_uri total
  create_request-HandedOver method path handler is_chunked self request w v e =
      elim (Bool-cases (pf.pointer w.calls (uri_parse (c_str path) false) == 0)) [
        | inl h ↦ (let q = rw h at e in (ground arith, ground arith))
        | inr h ↦
            let (more, same_frees) =
              with_url-HandedOver _ method handler is_chunked self _ _ request _ v (rw h at e) in
            (more ∙ omega arith, same_frees ∙ omega arith)
      ]

  send_request-counts :
      (request : Request) (v u : World)
      → send_request pf request v ≡ (ok tt, u)
      → (total (hands request.e_con) u.calls ≡ total (hands request.e_con) v.calls)
        × (total (frees_connection request.e_con) u.calls
            ≡ total (frees_connection request.e_con) v.calls + 1)
  unfolding send_request send send_async full_url total
  send_request-counts request v u e = (ground arith, ground arith)

  -- If CreateRequest returns a request and its Send returns, then libevent was asked once to free the
  -- connection on completion, and the connection was freed once besides.
  pub send_request-releases :
      (method : RequestMethod) (path : Bytes) (handler : ℕ) (is_chunked : Bool) (self : Client)
      (request : Request) (w v u : World)
      → create_request pf method path handler is_chunked self w ≡ (ok request, v)
      → send_request pf request v ≡ (ok tt, u)
      → (total (hands request.e_con) u.calls ≡ total (hands request.e_con) w.calls + 1)
        × (total (frees_connection request.e_con) u.calls
            ≡ total (frees_connection request.e_con) w.calls + 1)
  send_request-releases method path handler is_chunked self request w v u e q =
      let made = create_request-HandedOver method path handler is_chunked self request w v e in
      let sent = send_request-counts request v u q in (sent.0 ∙ made.0, rw made.1 at sent.1)
