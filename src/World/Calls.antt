-- ===== src/World/Calls.antt =====
-- The calls of libevent, of the operating system and of the client's callback that have an effect.
-- The constructors carry the arguments that the source passes.
use easy_http.Prelude.{ℕ, Bool, List}
use easy_http.Prelude.Int.{ℤ}
use easy_http.Bytes.{Bytes}

-- The values of libevent's `evhttp_cmd_type` that the source names, and the others.
pub data CmdType : Type 0 where
  req_get req_post req_head req_put req_delete req_options req_trace req_connect req_patch : CmdType
  req_other : ℕ → CmdType

pub data Call : Type 0 where
  -- evhttp_request_set_on_complete_cb, evhttp_request_new, evhttp_request_set_chunked_cb,
  -- evhttp_request_set_error_cb; the container, or the EvRequest, is the callback's
  -- argument
  set_on_complete_cb : (request container : ℕ) → Call
  request_new : (container : ℕ) → Call
  set_chunked_cb : (request : ℕ) → Call
  set_error_cb : (request : ℕ) → Call
  -- evhttp_add_header on the output headers of a request
  add_header : (request : ℕ) (key value : Bytes) → Call
  -- evbuffer_add and evbuffer_add_file on the output buffer of a request
  buffer_add : (request : ℕ) (content : Bytes) → Call
  buffer_add_file : (request : ℕ) (fd size : ℤ) → Call
  -- evhttp_send_reply with the output buffer of the request, or with no buffer
  send_reply : (request : ℕ) (code : ℤ) (reason : Bytes) (with_output : Bool) → Call
  send_reply_start : (request : ℕ) (code : ℤ) (reason : Bytes) → Call
  send_reply_chunk : (request : ℕ) (chunk : Bytes) → Call
  send_reply_end : (request : ℕ) → Call
  -- evhttp_send_reply_chunk_with_cb: the object is the callback's argument
  send_reply_chunk_with_cb : (request : ℕ) (chunk : Bytes) (object : ℕ) → Call
  -- evtimer_new, evtimer_add with `tv_usec`, event_free, and free() of the state of a chunked reply
  timer_new : (base request : ℕ) → Call
  timer_add : (timer usec : ℕ) → Call
  event_free : (event : ℕ) → Call
  free_state : (request : ℕ) → Call
  -- evhttp_make_request, evhttp_cancel_request, event_base_dispatch, event_base_loopexit
  make_request : (connection request : ℕ) (method : CmdType) (url : Bytes) → Call
  cancel_request : (request : ℕ) → Call
  dispatch : (base : ℕ) → Call
  loop_exit : (base : ℕ) → Call
  -- evhttp_connection_base_new, evhttp_connection_free_on_completion, evhttp_connection_free
  connection_new : (base dns : ℕ) (host : Bytes) (port : ℕ) → Call
  free_on_completion : (connection : ℕ) → Call
  connection_free : (connection : ℕ) → Call
  -- evhttp_uri_new, evhttp_uri_parse (with EVHTTP_URI_NONCONFORMANT or not), evhttp_uri_free
  uri_new : Call
  uri_parse : (url : Bytes) (nonconformant : Bool) → Call
  uri_free : (uri : ℕ) → Call
  -- evhttp_uri_set_host, evhttp_uri_set_port, evhttp_uri_set_scheme, evhttp_uri_set_query
  uri_set_host : (uri : ℕ) (host : Bytes) → Call
  uri_set_port : (uri : ℕ) (port : ℤ) → Call
  uri_set_scheme : (uri : ℕ) (scheme : Bytes) → Call
  uri_set_query : (uri : ℕ) (query : Bytes) → Call
  -- evhttp_request_free; `new` of an EvRequest
  request_free : (request : ℕ) → Call
  object_new : Call
  -- event_enable_debug_logging, event_base_loopbreak
  enable_debug_logging : Call
  loop_break : (base : ℕ) → Call
  -- open(path, O_RDONLY), fstat, close
  open_read : (path : Bytes) → Call
  fstat : (fd : ℤ) → Call
  close : (fd : ℤ) → Call
  -- the client's response handler, called with a response on a request
  respond : (handler request : ℕ) → Call
  -- event_base_new (also with a configuration), evhttp_new, evdns_base_new and their frees
  base_new : Call
  base_free : (base : ℕ) → Call
  http_new : (base : ℕ) → Call
  http_free : (http : ℕ) → Call
  dns_new : (base : ℕ) → Call
  dns_free : (dns : ℕ) → Call
  -- the calls of Server::Start
  ignore_sigpipe : Call
  config_new : Call
  config_free : (config : ℕ) → Call
  use_pthreads : Call
  set_allowed_methods : (http : ℕ) (methods : List CmdType) → Call
  set_gencb : (http : ℕ) → Call
  set_max_body_size : (http size : ℕ) → Call
  bind_socket : (http : ℕ) (ip : Bytes) (port : ℕ) → Call
  getsockname : (socket : ℕ) → Call
  evsignal_new : (base : ℕ) → Call
  event_add : (event : ℕ) → Call
  -- the line that the server prints when a handler throws
  print_crash : (request : ℕ) → Call
