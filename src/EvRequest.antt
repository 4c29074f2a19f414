-- ===== src/EvRequest.antt =====
-- `EvRequest` of include/easy_http/ev_request.h and src/ev_request.cpp: its state, and how requests
-- are made, moved and destroyed. The methods are in the child modules.
--
-- An EvRequest cannot be copied, and libevent's callbacks get the address of the object that they
-- are to change. A method that changes the object returns it. `chunks_asked` is not in the source:
-- it counts the calls of `chunk_callback`, which has a state of its own.
pub mod Fields
pub mod Content
pub mod Reply
pub mod Send
pub mod Lifetime
pub mod Agreement
use easy_http.Prelude.{ℕ, Option, none, some, Bool, true, false, ◌==◌, if◌then◌else◌}
use easy_http.Bytes.{Bytes, c_str}
use easy_http.World.{M, ◌>>=◌, ◌>>◌, pure, ask, emit, call_ptr, undefined_behaviour}
use easy_http.World.Calls.{
  uri_parse, set_on_complete_cb, request_new, set_chunked_cb, set_error_cb, request_free,
}
use easy_http.World.External.{Platform}
use easy_http.RequestBase.{RequestType, request, response, ChunkCallback}

pub record EvRequest : Type 0 where
  pub request_type : RequestType
  pub e_request : ℕ
  pub e_uri : ℕ
  pub response_handler : ℕ
  pub request_complete : Bool
  pub is_chunked : Bool
  pub chunk_callback : Option ChunkCallback
  pub chunks_asked : ℕ

module _ (pf : Platform) where
  -- EvRequest(evhttp_request*) once the URL is read, for an object at an address; NULL cannot be
  -- parsed.
  unfoldable pub of_received_from : ℕ → ℕ → Option Bytes → M EvRequest
  of_received_from this e_request url = elim url [
    | none ↦ undefined_behaviour
    | some text ↦ do
      uri ← call_ptr pf (uri_parse text false)
      emit (set_on_complete_cb e_request this)
      pure (record {
        request_type = response;
        e_request = e_request;
        e_uri = uri;
        response_handler = 0;
        request_complete = false;
        is_chunked = false;
        chunk_callback = none;
        chunks_asked = 0;
      })
  ]

  -- EvRequest(evhttp_request*)
  unfoldable pub of_received : ℕ → ℕ → M EvRequest
  unfolding of_received_from
  of_received this e_request = do
    url ← ask (λ h. pf.request_uri h e_request)
    of_received_from this e_request url

  -- `if (is_chunked_) evhttp_request_set_chunked_cb(…)`
  abbrev set_chunked : Bool → ℕ → M (Unit {0})
  set_chunked is_chunked e_request = if is_chunked then emit (set_chunked_cb e_request) else pure tt

  -- EvRequest(url, handler, is_chunked), for an object at an address
  unfoldable pub of_url : ℕ → Bytes → ℕ → Bool → M EvRequest
  of_url this url handler is_chunked = do
    e_request ← call_ptr pf (request_new this)
    uri ← call_ptr pf (uri_parse (c_str url) false)
    set_chunked is_chunked e_request
    emit (set_error_cb e_request)
    pure (record {
      request_type = request;
      e_request = e_request;
      e_uri = uri;
      response_handler = handler;
      request_complete = false;
      is_chunked = is_chunked;
      chunk_callback = none;
      chunks_asked = 0;
    })

  -- ~EvRequest(); libevent reads the request without a test for NULL.
  unfoldable pub destroy : EvRequest → M (Unit {0})
  destroy self = do
    is_owned ← ask (λ h. pf.request_is_owned h self.e_request)
    if self.e_request == 0
        then undefined_behaviour
        else if is_owned
        then emit (request_free self.e_request)
        else pure tt

-- operator=(EvRequest&&), for two objects: `self` and `req` after it. The callback that is moved
-- from is left in the given state.
unfoldable pub move_assign : Option ChunkCallback → EvRequest → EvRequest → EvRequest × EvRequest
move_assign left self req = (
  record self {
    request_type = req.request_type;
    e_request = req.e_request;
    response_handler = req.response_handler;
    is_chunked = req.is_chunked;
    chunk_callback = req.chunk_callback;
    chunks_asked = req.chunks_asked;
  },
  record req { e_request = 0; chunk_callback = left },
)

-- EvRequest(EvRequest&&): the members that the assignment leaves alone have any values.
unfoldable pub move_construct :
    Option ChunkCallback → (e_uri : ℕ) (request_complete : Bool) → EvRequest → EvRequest × EvRequest
unfolding move_assign
move_construct left e_uri request_complete req =
    move_assign left
      (record {
        request_type = request;
        e_request = 0;
        e_uri = e_uri;
        response_handler = 0;
        request_complete = request_complete;
        is_chunked = false;
        chunk_callback = none;
        chunks_asked = 0;
      })
      req
