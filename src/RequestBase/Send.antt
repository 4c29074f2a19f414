-- ===== src/RequestBase/Send.antt =====
-- Requests to a server, of src/request_base.cpp: SendAsync, Send, Cancel, Wait, and the callbacks of
-- `CallBackContainer`.
pub mod Completion
pub mod Pending
pub mod Callbacks
use easy_http.Prelude.{ℕ, Bool, true, false, ◌==◌, if◌then◌else◌}
use easy_http.Prelude.Int.{ℤ, pos, negsuc, eq_ℤ}
use easy_http.Bytes.{text, c_str}
use easy_http.Outcome.{ok, runtime_error, bad_function_call}
use easy_http.World.{M, ◌>>=◌, ◌>>◌, pure, ask, raise, emit, call_int, put_container, finally}
use easy_http.World.Calls.{
  CmdType, req_get, req_post, req_head, req_put, req_delete, req_options, req_trace, req_connect,
  req_patch, make_request, cancel_request, dispatch, loop_exit, connection_free, respond,
}
use easy_http.World.External.{Platform}
use easy_http.RequestBase.{
  RequestMethod, get, post, head, put, delete, options, trace, connect, patch, RequestType, request,
  response, RequestBase, of_received, release,
}
use easy_http.RequestBase.Fields.{full_url}

-- The switch of SendAsync.
unfoldable pub cmd_of_method : RequestMethod → CmdType
cmd_of_method get = req_get
cmd_of_method post = req_post
cmd_of_method head = req_head
cmd_of_method put = req_put
cmd_of_method delete = req_delete
cmd_of_method options = req_options
cmd_of_method trace = req_trace
cmd_of_method connect = req_connect
cmd_of_method patch = req_patch

abbrev pub is_response : RequestType → Bool
is_response request = false
is_response response = true

-- libevent's `evhttp_request_error`
pub data RequestError : Type 0 where
  timeout eof invalid_header buffer_error request_cancel data_too_long : RequestError
  other_error : ℕ → RequestError

-- CallBackContainer::ResponseErrorHandle
unfoldable pub response_error : RequestError → M (Unit {0})
response_error timeout = raise (runtime_error (text "RequestBase timeout"))
response_error eof = raise (runtime_error (text "RequestBase EOF"))
response_error invalid_header = raise (runtime_error (text "RequestBase invalid header"))
response_error buffer_error = raise (runtime_error (text "RequestBase buffer error"))
response_error request_cancel = raise (runtime_error (text "RequestBase cancel"))
response_error data_too_long = raise (runtime_error (text "RequestBase data too long"))
response_error (other_error n) = pure tt

-- CallBackContainer::OnReplyComplete
unfoldable pub on_reply_complete : ℕ → M (Unit {0})
on_reply_complete con w = put_container con (record (w.containers con) { is_complete = true }) w

-- `response_handler_(…)`: an empty std::function throws. The handler is a number, 0 is nullptr.
abbrev pub call_handler : ℕ → ℕ → M (Unit {0})
call_handler handler e_request =
    if handler == 0 then raise bad_function_call else emit (respond handler e_request)

module _ (pf : Platform) where
  -- CallBackContainer::ResponseHandle: the handler gets a Response made of the libevent request, which
  -- is destroyed after the call.
  unfoldable pub response_handle : ℕ → ℕ → M (Unit {0})
  response_handle e_request con = do
    handler ← (λ w. (ok (w.containers con).response_handler, w))
    made ← of_received pf e_request
    finally (release pf made) (call_handler handler e_request)
    e_con ← (λ w. (ok (w.containers con).e_con, w))
    base ← ask (λ h. pf.connection_base h e_con)
    emit (loop_exit base)
    on_reply_complete con

  -- CallBackContainer::ResponseChunkedHandle
  unfoldable pub response_chunked_handle : ℕ → ℕ → M (Unit {0})
  response_chunked_handle e_request con = do
    handler ← (λ w. (ok (w.containers con).response_handler, w))
    made ← of_received pf e_request
    finally (release pf made) (call_handler handler e_request)

  module _ (self : RequestBase) where
    unfoldable pub send_async : ℕ → RequestMethod → M (Unit {0})
    send_async e_con method =
        if is_response self.request_type
        then raise (runtime_error (text "Invalid RequestBase type! use Reply function."))
        else do
          (λ w.
              put_container self.cb_container
                (record (w.containers self.cb_container) { e_con = e_con }) w)
          url ← full_url pf self
          r ← call_int pf (make_request e_con self.e_request (cmd_of_method method) (c_str url))
          if eq_ℤ r (negsuc 0) then raise (runtime_error (text "Request failed!")) else pure tt

    unfoldable pub send : ℕ → RequestMethod → M (Unit {0})
    send e_con method = do
      send_async e_con method
      base ← ask (λ h. pf.connection_base h e_con)
      emit (dispatch base)
      emit (connection_free e_con)

    unfoldable pub cancel : M (Unit {0})
    cancel = emit (cancel_request self.e_request)

    unfoldable pub wait : M ℤ
    wait = do
      e_conn ← ask (λ h. pf.request_connection h self.e_request)
      if e_conn == 0
          then pure (pos 0)
          else do base ← ask (λ h. pf.connection_base h e_conn); call_int pf (dispatch base)
