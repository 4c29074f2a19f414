-- ===== src/RequestBase.antt =====
-- `RequestBase` of include/easy_http/request_base.h and src/request_base.cpp: its state, and how
-- requests are made and copied. The methods are in the child modules.
--
-- A pointer to a libevent object is a number. Copies of a request share what the pointers lead to:
-- the libevent request, its URI and its `CallBackContainer`. The member `request_complete_`, which
-- no method reads, is left out.
pub mod Fields
pub mod Headers
pub mod Content
pub mod Url
pub mod Reply
pub mod Derived
pub mod Send
pub mod Methods
use easy_http.Prelude.{ℕ, List, [], ◌∷◌, Option, none, some, Bool, true, false, if◌then◌else◌}
use easy_http.Bytes.{Bytes, c_str}
use easy_http.ParamList.{ParamList, insert}
use easy_http.Values.{to_lower}
use easy_http.World.{
  World, M, ◌>>=◌, ◌>>◌, pure, ask, emit, call_ptr, undefined_behaviour, new_container,
  put_container,
}
use easy_http.World.Calls.{
  request_new, set_on_complete_cb, set_chunked_cb, set_error_cb, uri_parse, uri_free,
}
use easy_http.World.External.{Platform}
use easy_http.Queries.{queries}

pub data RequestMethod : Type 0 where
  get post head put delete options trace connect patch : RequestMethod

pub data RequestType : Type 0 where
  request response : RequestType

-- What a `std::function<bool(std::string&)>` answers at its n-th call: the `bool`, and the string.
abbrev pub ChunkCallback : Type 0
ChunkCallback = ℕ → Bool × Bytes

pub record RequestBase : Type 0 where
  pub request_type : RequestType
  pub e_request : ℕ
  pub e_uri : ℕ
  pub cb_container : ℕ
  pub response_handler : ℕ
  pub is_chunked : Bool
  pub chunk_callback : Option ChunkCallback
  pub queries : ParamList
  pub input_headers : ParamList

-- The loop of Headers() over libevent's list.
unfoldable pub collect_headers : ParamList → List (Bytes × Bytes) → ParamList
collect_headers list [] = list
collect_headers list ((key, value) ∷ headers) =
    collect_headers (insert (to_lower key) value list) headers

-- The members of a request that was received.
abbrev pub received : (e_request uri con : ℕ) (queries headers : ParamList) → RequestBase
received e_request uri con queries headers = record {
  request_type = response;
  e_request = e_request;
  e_uri = uri;
  cb_container = con;
  response_handler = 0;
  is_chunked = false;
  chunk_callback = none;
  queries = queries;
  input_headers = headers;
}

-- The destructor of the last object that shares the members of a request: EventFree frees its URI.
-- An object that the program keeps is another that shares them.
abbrev pub release : Platform → RequestBase → World → World
release pf self w =
    if pf.is_kept self.cb_container then w else record w { calls = uri_free self.e_uri ∷ w.calls }

module _ (pf : Platform) where
  -- Headers() of a request with the given `e_request_`.
  unfoldable pub headers : ℕ → M ParamList
  unfolding collect_headers
  headers e_request = ask (λ h. collect_headers [] (pf.input_headers h e_request))

  -- RequestBase(evhttp_request*), once the URL is read; NULL cannot be parsed.
  unfoldable pub of_received_from : ℕ → Option Bytes → M RequestBase
  unfolding headers
  of_received_from e_request none = undefined_behaviour
  of_received_from e_request (some url) = do
    uri ← call_ptr pf (uri_parse url true)
    con ← new_container
    emit (set_on_complete_cb e_request con)
    q ← queries pf uri
    hs ← headers e_request
    pure (received e_request uri con q hs)

  -- RequestBase(evhttp_request*): a request that was received.
  unfoldable pub of_received : ℕ → M RequestBase
  unfolding of_received_from
  of_received e_request = do
    url ← ask (λ h. pf.request_uri h e_request)
    of_received_from e_request url

  -- `if (is_chunked_) evhttp_request_set_chunked_cb(…)`
  abbrev pub set_chunked : Bool → ℕ → M (Unit {0})
  set_chunked is_chunked e_request = if is_chunked then emit (set_chunked_cb e_request) else pure tt

  -- RequestBase(url, handler, is_chunked): a request to send.
  unfoldable pub of_url : Bytes → ℕ → Bool → M RequestBase
  of_url url handler is_chunked = do
    uri ← call_ptr pf (uri_parse (c_str url) false)
    con ← new_container
    put_container con (record { is_complete = false; e_con = 0; response_handler = handler })
    e_request ← call_ptr pf (request_new con)
    set_chunked is_chunked e_request
    emit (set_error_cb e_request)
    q ← queries pf uri
    pure (record {
      request_type = request;
      e_request = e_request;
      e_uri = uri;
      cb_container = con;
      response_handler = handler;
      is_chunked = is_chunked;
      chunk_callback = none;
      queries = q;
      input_headers = [];
    })

-- operator=(const RequestBase&), by which the copy constructor is written too: `self` after it.
unfoldable pub assign : RequestBase → RequestBase → RequestBase
assign self req = record self {
  e_request = req.e_request;
  e_uri = req.e_uri;
  cb_container = req.cb_container;
  request_type = req.request_type;
  response_handler = req.response_handler;
  is_chunked = req.is_chunked;
  chunk_callback = req.chunk_callback;
  input_headers = req.input_headers;
  queries = req.queries;
}

-- What a move leaves in the members that the standard library moves: any valid values.
pub record Left : Type 0 where
  pub chunk_callback : Option ChunkCallback
  pub queries : ParamList
  pub input_headers : ParamList

-- `if (req.chunk_callback_) chunk_callback_ = std::move(req.chunk_callback_);`: the member of `self`
-- and that of `req`.
abbrev pub move_callback :
    Option ChunkCallback
    → Option ChunkCallback
    → Option ChunkCallback
    → Option ChunkCallback × Option ChunkCallback
move_callback left old none = (old, none)
move_callback left old (some f) = (some f, left)

-- operator=(RequestBase&&), for two objects: `self` and `req` after it.
unfoldable pub move_assign : Left → RequestBase → RequestBase → RequestBase × RequestBase
move_assign left self req =
    let (mine, theirs) = move_callback left.chunk_callback self.chunk_callback req.chunk_callback in
    (
      record self {
        e_request = req.e_request;
        e_uri = req.e_uri;
        cb_container = req.cb_container;
        request_type = req.request_type;
        response_handler = req.response_handler;
        is_chunked = req.is_chunked;
        chunk_callback = mine;
        input_headers = req.input_headers;
        queries = req.queries;
      },
      record req {
        e_request = 0;
        e_uri = 0;
        cb_container = 0;
        chunk_callback = theirs;
        input_headers = left.input_headers;
        queries = left.queries;
      },
    )

-- RequestBase(RequestBase&&): the member `type_` and the pointer to the request begin with any values,
-- which the assignment overwrites.
unfoldable pub move_construct : Left → RequestBase → RequestBase × RequestBase
unfolding move_assign
move_construct left req =
    move_assign left
      (record {
        request_type = request;
        e_request = 0;
        e_uri = 0;
        cb_container = 0;
        response_handler = 0;
        is_chunked = false;
        chunk_callback = none;
        queries = [];
        input_headers = [];
      })
      req

-- SetChunkCallback
unfoldable pub set_chunk_callback : Option ChunkCallback → RequestBase → RequestBase
set_chunk_callback func self = record self { chunk_callback = func; is_chunked = true }
