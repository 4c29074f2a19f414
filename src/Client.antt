-- ===== src/Client.antt =====
-- `Client` of include/easy_http/client.h and src/client.cpp, as built for a system other than
-- Windows.
pub mod Uris
pub mod Lifetime
pub mod Requests
pub mod Release
pub mod Safety
pub mod Constructing
pub mod Life
use easy_http.Prelude.{
  ℕ, ◌-◌, ◌%◌, ◌^◌, List, [], ◌∷◌, Option, none, some, Bool, true, false, not, ◌||◌, ◌==◌,
  if◌then◌else◌,
}
use easy_http.Prelude.Int.{to_uint16, ℤ, pos, negsuc, ltb_ℤ, eq_ℤ, ◌+ℤ◌}
use easy_http.Bytes.{Bytes, text, c_str}
use easy_http.Outcome.{runtime_error, invalid_argument}
use easy_http.World.{
  World, on_throw, M, ◌>>=◌, ◌>>◌, pure, raise, undefined_behaviour, ask, emit, call_int, call_ptr,
}
use easy_http.World.Calls.{
  uri_new, uri_parse, uri_free, uri_set_host, uri_set_port, uri_set_scheme, connection_new,
  connection_free, free_on_completion, base_new, base_free, dns_new, dns_free, loop_exit,
  ignore_sigpipe,
}
use easy_http.World.External.{Platform}
use easy_http.RequestBase.{RequestMethod, get, post, put, patch, delete}
use easy_http.RequestBase.Fields.{url_max}
use easy_http.RequestBase.Headers.{push_header}
use easy_http.Request.{Request, of_connection}

pub record Client : Type 0 where
  pub http_port : ℕ
  pub http_scheme : Bytes
  pub http_host : Bytes
  pub e_base : ℕ
  pub e_dns : ℕ
  pub e_conn : ℕ

abbrev pub is_null : Option Bytes → Bool
is_null none = true
is_null (some s) = false

module _ (pf : Platform) where
  -- Init(), for a client with the given port, scheme and host. SIG_ERR is -1.
  unfoldable pub init : ℕ → Bytes → Bytes → M Client
  init port scheme host = do
    r ← call_int pf ignore_sigpipe
    if eq_ℤ r (negsuc 0) then raise (runtime_error (text "could not init sockets!")) else do
      base ← call_ptr pf base_new
      dns ← call_ptr pf (dns_new base)
      pure (record {
        http_port = port;
        http_scheme = scheme;
        http_host = host;
        e_base = base;
        e_dns = dns;
        e_conn = 0;
      })

  -- The three setters of a URI that the constructor and CreateRequest share: the sum of their
  -- results.
  unfoldable pub set_uri : ℕ → Bytes → ℤ → Bytes → M ℤ
  set_uri uri host port scheme = do
    a ← call_int pf (uri_set_host uri (c_str host))
    b ← call_int pf (uri_set_port uri port)
    c ← call_int pf (uri_set_scheme uri (c_str scheme))
    pure (a +ℤ b +ℤ c)

  -- Client(ip, port). The URI is not freed when all goes well.
  unfoldable pub of_ip_port : Bytes → ℤ → M Client
  of_ip_port ip port = do
    uri ← call_ptr pf uri_new
    r ← set_uri uri ip port (text "http")
    joined ← ask (λ h. pf.uri_join h uri url_max)
    if ltb_ℤ r (pos 0) || is_null joined
        then emit (uri_free uri) >> raise (runtime_error (text "Invalid ip or port"))
        else init (to_uint16 port) (text "http") ip

  -- Client(host) once the scheme is read; `none` is NULL.
  unfoldable pub of_uri_host : ℕ → ℕ → Bytes → Option Bytes → M Client
  of_uri_host uri port scheme none = raise (invalid_argument (text "Invalid host!"))
  of_uri_host uri port scheme (some host) = emit (uri_free uri) >> init port scheme host

  unfoldable pub of_uri_scheme : ℕ → ℕ → Option Bytes → M Client
  of_uri_scheme uri port none = raise (invalid_argument (text "URL scheme was not set!"))
  of_uri_scheme uri port (some scheme) =
      ask (λ h. pf.uri_host h uri) >>= of_uri_host uri port scheme

  abbrev pub port_or_80 : ℤ → ℕ
  port_or_80 port = if eq_ℤ port (negsuc 0) then 80 else to_uint16 port

  -- Client(host)
  unfoldable pub of_host : Bytes → M Client
  of_host host = do
    uri ← call_ptr pf (uri_parse (c_str host) false)
    if uri == 0 then raise (runtime_error (text "Cannot pars client host!")) else do
      port ← ask (λ h. pf.uri_port h uri)
      scheme ← ask (λ h. pf.uri_scheme h uri)
      of_uri_scheme uri (port_or_80 port) scheme

  -- The destructor of the local request, which nothing shares yet.
  abbrev pub free_uri : Request → World → World
  free_uri request w = record w { calls = uri_free request.base.e_uri ∷ w.calls }

  -- CreateRequest once the URL is joined: the connection, the request and its header. libevent writes
  -- to the connection without a test for NULL. If PushHeader throws, the request is destroyed.
  unfoldable pub connect : RequestMethod → Bytes → ℕ → Bool → Client → M Request
  connect method url handler is_chunked self = do
    e_conn ←
        call_ptr pf (connection_new self.e_base self.e_dns (c_str self.http_host) self.http_port)
    if e_conn == 0 then undefined_behaviour else do
      emit (free_on_completion e_conn)
      request ← of_connection pf e_conn method url handler is_chunked
      on_throw (free_uri request) (push_header pf request.base (text "Host") self.http_host)
      pure request

  -- CreateRequest after the setters, with the sum of their results and the joined text.
  unfoldable pub with_url : ℕ → RequestMethod → ℕ → Bool → Client → ℤ → Option Bytes → M Request
  with_url uri method handler is_chunked self r none =
      emit (uri_free uri) >> raise (runtime_error (text "Could not set host info!"))
  with_url uri method handler is_chunked self r (some url) =
      emit (uri_free uri)
      >> (if ltb_ℤ r (pos 0)
          then raise (runtime_error (text "Could not set host info!"))
          else connect method (c_str url) handler is_chunked self)

  -- CreateRequest
  unfoldable pub create_request : RequestMethod → Bytes → ℕ → Bool → Client → M Request
  create_request method path handler is_chunked self = do
    uri ← call_ptr pf (uri_parse (c_str path) false)
    if uri == 0 then raise (runtime_error (text "Invalid path")) else do
      r ← set_uri uri self.http_host (pos self.http_port) self.http_scheme
      joined ← ask (λ h. pf.uri_join h uri url_max)
      with_url uri method handler is_chunked self r joined

  unfoldable pub client_get : Bytes → ℕ → Bool → Client → M Request
  client_get path handler is_chunked self = create_request get path handler is_chunked self

  unfoldable pub client_post : Bytes → ℕ → Bool → Client → M Request
  client_post path handler is_chunked self = create_request post path handler is_chunked self

  unfoldable pub client_put : Bytes → ℕ → Bool → Client → M Request
  client_put path handler is_chunked self = create_request put path handler is_chunked self

  unfoldable pub client_patch : Bytes → ℕ → Bool → Client → M Request
  client_patch path handler is_chunked self = create_request patch path handler is_chunked self

  unfoldable pub client_delete : Bytes → ℕ → Bool → Client → M Request
  client_delete path handler is_chunked self = create_request delete path handler is_chunked self

-- `if (p) f(p);`
abbrev if_set : ℕ → M (Unit {0}) → M (Unit {0})
if_set p m = if p == 0 then pure tt else m

-- ~Client()
unfoldable pub destroy : Client → M (Unit {0})
destroy self = do
  if_set self.e_base (emit (loop_exit self.e_base))
  if_set self.e_conn (emit (connection_free self.e_conn))
  if_set self.e_dns (emit (dns_free self.e_dns))
  if_set self.e_base (emit (base_free self.e_base))
