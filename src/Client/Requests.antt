-- ===== src/Client/Requests.antt =====
-- The requests that a client makes.
use easy_http.Prelude.{ℕ, [], Option, none, some, Bool, false, ◌==◌, ◌≡◌, refl}
use easy_http.Prelude.Int.{ℤ, pos, ltb_ℤ}
use easy_http.Bytes.{Bytes, text, c_str}
use easy_http.Outcome.{runtime_error}
use easy_http.ParamList.{ParamList}
use easy_http.Queries.{queries}
use easy_http.World.{
  on_throw, World, pure, ask, emit, call_ptr, new_container, put_container, undefined_behaviour,
}
use easy_http.World.Calls.{
  uri_parse, request_new, set_error_cb, uri_free, connection_new, free_on_completion,
}
use easy_http.World.External.{Platform}
use easy_http.World.Yields.{OfResult, Yields, bind-Yields, then-Yields, if-Yields, raise-Yields}
use easy_http.RequestBase.{RequestBase, RequestMethod, request, of_url, set_chunked}
use easy_http.RequestBase.Fields.{url_max}
use easy_http.RequestBase.Headers.{push_header}
use easy_http.Request.{Request, of_connection}
use easy_http.Client.{free_uri, Client, connect, with_url, set_uri, create_request}

module _ (pf : Platform) (method : RequestMethod) (handler : ℕ) (is_chunked : Bool) where
  abbrev IsBase : RequestBase → Type 0
  IsBase self =
      (self.request_type ≡ request)
      × (self.response_handler ≡ handler)
      × (self.is_chunked ≡ is_chunked)

  -- A request to send by the method and with the handler, over a connection.
  abbrev IsToSend : Request → Type 0
  IsToSend self = (self.method ≡ method) × ((self.e_con == 0) ≡ false) × IsBase self.base

  abbrev pub made : (e_request uri con : ℕ) → ParamList → RequestBase
  made e_request uri con queries = record {
    request_type = request;
    e_request = e_request;
    e_uri = uri;
    cb_container = con;
    response_handler = handler;
    is_chunked = is_chunked;
    chunk_callback = none;
    queries = queries;
    input_headers = [];
  }

  of_url-IsBase : (url : Bytes) → Yields IsBase (of_url pf url handler is_chunked)
  unfolding of_url
  of_url-IsBase url = bind-Yields IsBase (call_ptr pf (uri_parse (c_str url) false)) _ (λ uri.
      bind-Yields IsBase new_container _ (λ con.
        bind-Yields IsBase
          (put_container con
            (record { is_complete = false; e_con = 0; response_handler = handler }))
          _
          (λ _. bind-Yields IsBase (call_ptr pf (request_new con)) _ (λ e_request.
            bind-Yields IsBase (set_chunked pf is_chunked e_request) _ (λ _.
              bind-Yields IsBase (emit (set_error_cb e_request)) _ (λ _.
                bind-Yields IsBase (queries pf uri) (λ q. pure (made e_request uri con q))
                  (λ q. record { at = λ w. (refl, refl, refl) })))))))

  connect-IsToSend :
      (url : Bytes) (self : Client)
      → Yields IsToSend (connect pf method url handler is_chunked self)
  unfolding connect of_connection
  connect-IsToSend url self =
      bind-Yields IsToSend
        (call_ptr pf (connection_new self.e_base self.e_dns (c_str self.http_host) self.http_port))
        _
        (λ e_conn.
          if-Yields IsToSend (e_conn == 0) undefined_behaviour _ (record { at = λ w. tt })
            (λ some_conn. bind-Yields IsToSend (emit (free_on_completion e_conn)) _ (λ _.
              then-Yields (λ (r : Request). IsToSend r) IsToSend
                (of_connection pf e_conn method url handler is_chunked) _
                (then-Yields IsBase (λ (r : Request). IsToSend r) (of_url pf url handler is_chunked)
                  _ (of_url-IsBase url) (λ base q. record { at = λ w. (refl, some_conn, q) }))
                (λ r q.
                  bind-Yields IsToSend
                    (on_throw (free_uri pf r) (push_header pf r.base (text "Host") self.http_host))
                    (λ _. pure r) (λ _. record { at = λ w. q })))))

  with_url-IsToSend :
      (uri : ℕ) (self : Client) (r : ℤ) (joined : Option Bytes)
      → Yields IsToSend (with_url pf uri method handler is_chunked self r joined)
  unfolding with_url
  with_url-IsToSend uri self r none =
      bind-Yields IsToSend (emit (uri_free uri)) _
        (λ _. raise-Yields IsToSend (runtime_error (text "Could not set host info!")))
  with_url-IsToSend uri self r (some url) = bind-Yields IsToSend (emit (uri_free uri)) _ (λ _.
      if-Yields IsToSend (ltb_ℤ r (pos 0)) _ _
        (raise-Yields IsToSend (runtime_error (text "Could not set host info!")))
        (λ _. connect-IsToSend (c_str url) self))

  -- Whatever request CreateRequest returns can be sent: it is of the type to send, has the method, the
  -- handler and the chunk flag that were asked for, and a connection that is not NULL.
  create_request-IsToSend :
      (path : Bytes) (self : Client) (w : World)
      → OfResult IsToSend (create_request pf method path handler is_chunked self w)
  unfolding create_request
  create_request-IsToSend path self w =
      (bind-Yields IsToSend (call_ptr pf (uri_parse (c_str path) false)) _ (λ uri.
          if-Yields IsToSend (uri == 0) _ _
            (raise-Yields IsToSend (runtime_error (text "Invalid path")))
            (λ _.
              bind-Yields IsToSend
                (set_uri pf uri self.http_host (pos self.http_port) self.http_scheme) _
                (λ r.
                  bind-Yields IsToSend (ask (λ h. pf.uri_join h uri url_max)) _
                    (λ joined. with_url-IsToSend uri self r joined))))).at
        w
