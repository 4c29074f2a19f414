-- ===== src/Request.antt =====
-- `Request` of include/easy_http/request.h and src/request.cpp.
pub mod Params
use easy_http.Prelude.{ℕ, [], ◌∷◌, Bool}
use easy_http.Bytes.{Bytes, c_str}
use easy_http.ParamList.{ParamList}
use easy_http.World.{M, ◌>>=◌, ◌>>◌, pure, emit, lift}
use easy_http.World.Calls.{uri_set_query}
use easy_http.World.External.{Platform}
use easy_http.Queries.{render}
use easy_http.RequestBase.{RequestBase, RequestMethod, get, of_received, of_url, assign}
use easy_http.RequestBase.Send.{send, send_async}

pub record Request : Type 0 where
  pub base : RequestBase
  pub e_con : ℕ
  pub method : RequestMethod

module _ (pf : Platform) where
  -- Request(evhttp_request*). The connection and the method of such a request are never set; here
  -- they are NULL and GET.
  unfoldable pub of_event : ℕ → M Request
  of_event e_request = do
    base ← of_received pf e_request
    pure (record { base = base; e_con = 0; method = get })

  -- Request(e_con, method, url, handler, is_chunked)
  unfoldable pub of_connection : ℕ → RequestMethod → Bytes → ℕ → Bool → M Request
  of_connection e_con method url handler is_chunked = do
    base ← of_url pf url handler is_chunked
    pure (record { base = base; e_con = e_con; method = method })

  -- PushParam(params); the strings that evhttp_uriencode returns are freed.
  unfoldable pub push_params : ParamList → Request → M (Unit {0})
  push_params params self = do
    params_str ← lift (render pf [] params)
    emit (uri_set_query self.base.e_uri (c_str params_str))

  -- PushParam(key, value)
  unfoldable pub push_param : Bytes → Bytes → Request → M (Unit {0})
  push_param key value self = push_params ((key, value) ∷ []) self

  -- Send() and SendAsync()
  unfoldable pub send_request : Request → M (Unit {0})
  send_request self = send pf self.base self.e_con self.method

  unfoldable pub send_request_async : Request → M (Unit {0})
  send_request_async self = send_async pf self.base self.e_con self.method

-- operator=(const Request&), operator=(Request&&) and the constructors written by them. The move
-- takes its argument for an lvalue, so it copies.
unfoldable pub assign_request : Request → Request → Request
assign_request self req = record self {
  base = assign self.base req.base;
  e_con = req.e_con;
  method = req.method;
}
