-- ===== src/RequestBase/Reply.antt =====
-- Replies of src/request_base.cpp: Reply, and the timer callback that sends a chunked reply.
pub mod Chunks
use easy_http.Prelude.{
  ℕ, suc, ◌*◌, List, [], ◌∷◌, Option, none, some, Bool, true, false, not, ◌&&◌, ◌==◌, if◌then◌else◌,
}
use easy_http.Prelude.Int.{ℤ}
use easy_http.Bytes.{Bytes, text}
use easy_http.Outcome.{runtime_error, bad_function_call}
use easy_http.ParamList.{ParamList, insert}
use easy_http.World.{World, M, ◌>>=◌, ◌>>◌, pure, ask, raise, emit, call_ptr}
use easy_http.World.Calls.{
  send_reply, send_reply_start, send_reply_chunk, send_reply_end, timer_new, timer_add, event_free,
  free_state,
}
use easy_http.World.External.{Platform}
use easy_http.RequestBase.{RequestBase, RequestType, request, response, ChunkCallback}
use easy_http.RequestBase.Headers.{push_headers}

-- `chunk_req_state`
pub record ChunkState : Type 0 where
  pub req : ℕ
  pub timer : ℕ
  pub get_chunk : Option ChunkCallback
  pub i : ℕ

-- `default_headers`, a map made of an initialiser list
unfoldable pub default_headers : ParamList
default_headers =
    insert (text "access-control-allow-headers")
      (text
        "Origin, Accept, X-Requested-With, X-Auth-Token, Content-Type, Access-Control-Allow-Headers, Access-Control-Request-Method, Access-Control-Request-Headers")
      (insert (text "access-control-allow-methods") (text "GET, POST, OPTIONS, PUT, PATCH, DELETE")
        (insert (text "access-control-allow-credentials") (text "true")
          (insert (text "access-control-allow-origin") (text "*") [])))

-- schedule_trickle(state, ms)
unfoldable pub schedule_trickle : ChunkState → ℕ → M (Unit {0})
schedule_trickle state ms = emit (timer_add state.timer (ms * 30))

abbrev pub is_request : RequestType → Bool
is_request request = true
is_request response = false

module _ (pf : Platform) where
  -- http_chunked_trickle_cb: `some` of the state while the timer is armed, `none` once the state is
  -- freed. `i` counts the chunks sent, which is the number of earlier calls of `get_chunk`.
  unfoldable pub trickle : ChunkState → M (Option ChunkState)
  unfolding schedule_trickle
  trickle state = elim state.get_chunk [
    | none ↦ raise bad_function_call
    | some get_chunk ↦ do
      e_conn ← ask (λ h. pf.request_connection h state.req)
      if (get_chunk state.i).0 && not (e_conn == 0)
          then (do
            emit (send_reply_chunk state.req (get_chunk state.i).1)
            schedule_trickle state 1000
            pure (some (record state { i = suc state.i })))
          else (do
            emit (send_reply_end state.req)
            emit (event_free state.timer)
            emit (free_state state.req)
            pure none)
  ]

  -- The branch of Reply for a chunked reply.
  unfoldable pub start_chunked : RequestBase → ℤ → M (Option ChunkState)
  unfolding schedule_trickle
  start_chunked self status_code = do
    e_conn ← ask (λ h. pf.request_connection h self.e_request)
    base ← ask (λ h. pf.connection_base h e_conn)
    timer ← call_ptr pf (timer_new base self.e_request)
    emit (send_reply_start self.e_request status_code (text "OK"))
    let state : ChunkState = record {
      req = self.e_request;
      timer = timer;
      get_chunk = self.chunk_callback;
      i = 0;
    }
    schedule_trickle state 0
    pure (some state)

  -- What Reply sends once the headers are set.
  unfoldable pub send_out : RequestBase → ℤ → M (Option ChunkState)
  send_out self status_code =
      if self.is_chunked
      then start_chunked self status_code
      else (emit (send_reply self.e_request status_code (text "ok") true) >> pure none)

  -- Reply(status_code): `some` of the state of a chunked reply, which the timer owns.
  unfoldable pub reply : RequestBase → ℤ → M (Option ChunkState)
  reply self status_code =
      if is_request self.request_type
      then raise (runtime_error (text "Invalid RequestBase type! use Send function."))
      else (push_headers pf self default_headers >> send_out self status_code)
