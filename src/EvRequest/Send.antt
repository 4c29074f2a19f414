-- ===== src/EvRequest/Send.antt =====
-- Requests to a server, of src/ev_request.cpp: SendAsync, Send, Cancel, Wait, and the callbacks.
use easy_http.Prelude.{ℕ, true, ◌==◌, if◌then◌else◌}
use easy_http.Prelude.Int.{ℤ, pos, negsuc, eq_ℤ}
use easy_http.Bytes.{text, c_str}
use easy_http.Outcome.{runtime_error}
use easy_http.World.{
  M, ◌>>=◌, ◌>>◌, pure, ask, raise, emit, call_int, call_ptr, undefined_behaviour,
}
use easy_http.World.Calls.{make_request, cancel_request, dispatch, loop_exit, object_new}
use easy_http.World.External.{Platform}
use easy_http.RequestBase.{RequestMethod}
use easy_http.RequestBase.Send.{
  call_handler, RequestError, timeout, eof, invalid_header, buffer_error, request_cancel,
  data_too_long, other_error, cmd_of_method, is_response,
}
use easy_http.EvRequest.{EvRequest, of_received}
use easy_http.EvRequest.Fields.{full_url}

-- error_cb
unfoldable pub response_error : RequestError → M (Unit {0})
response_error timeout = raise (runtime_error (text "EvRequest timeout"))
response_error eof = raise (runtime_error (text "EvRequest EOF"))
response_error invalid_header = raise (runtime_error (text "EvRequest invalid header"))
response_error buffer_error = raise (runtime_error (text "EvRequest buffer error"))
response_error request_cancel = raise (runtime_error (text "EvRequest cancel"))
response_error data_too_long = raise (runtime_error (text "EvRequest data too long"))
response_error (other_error n) = pure tt

-- OnReplyComplete: the object after it.
unfoldable pub on_reply_complete : EvRequest → EvRequest
on_reply_complete self = record self { request_complete = true }

-- ResponseChunkedHandler reads a pointer to an EvRequest where the address of the EvRequest itself
-- was given to libevent.
unfoldable pub response_chunked_handler : ℕ → EvRequest → M EvRequest
response_chunked_handler e_request self = undefined_behaviour

module _ (pf : Platform) where
  -- ResponseHandler(request, object): the object after it. The handler gets an EvRequest made of the
  -- libevent request, and owns it.
  unfoldable pub response_handler : ℕ → EvRequest → M EvRequest
  unfolding on_reply_complete
  response_handler e_request self = do
    received ← call_ptr pf object_new
    of_received pf received e_request
    call_handler self.response_handler e_request
    con ← ask (λ h. pf.request_connection h self.e_request)
    base ← ask (λ h. pf.connection_base h con)
    emit (loop_exit base)
    pure (on_reply_complete self)

  module _ (self : EvRequest) where
    unfoldable pub send_async : ℕ → RequestMethod → M (Unit {0})
    send_async e_con method =
        if is_response self.request_type
        then raise (runtime_error (text "Invalid EvRequest type! use Reply function."))
        else do
          url ← full_url pf self
          r ← call_int pf (make_request e_con self.e_request (cmd_of_method method) (c_str url))
          if eq_ℤ r (negsuc 0) then raise (runtime_error (text "Request failed!")) else pure tt

    unfoldable pub send : ℕ → RequestMethod → M (Unit {0})
    send e_con method = do
      send_async e_con method
      base ← ask (λ h. pf.connection_base h e_con)
      emit (dispatch base)

    unfoldable pub cancel : M (Unit {0})
    cancel = emit (cancel_request self.e_request)

    unfoldable pub wait : M ℤ
    wait = do
      e_conn ← ask (λ h. pf.request_connection h self.e_request)
      if e_conn == 0
          then pure (pos 0)
          else do base ← ask (λ h. pf.connection_base h e_conn); call_int pf (dispatch base)
