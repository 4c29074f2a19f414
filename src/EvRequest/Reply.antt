-- ===== src/EvRequest/Reply.antt =====
-- Replies of src/ev_request.cpp: Reply, SetChunkCallback, and Chunk_cb, which libevent calls each time
-- a chunk has been sent.
pub mod Chunks
use easy_http.Prelude.{
  ℕ, suc, [], Option, none, some, Bool, true, false, not, ◌&&◌, ◌==◌, if◌then◌else◌,
}
use easy_http.Prelude.Int.{ℤ}
use easy_http.Bytes.{Bytes, text}
use easy_http.Outcome.{runtime_error, bad_function_call}
use easy_http.World.{M, ◌>>=◌, ◌>>◌, pure, emit, raise}
use easy_http.World.Calls.{send_reply, send_reply_start, send_reply_chunk_with_cb, send_reply_end}
use easy_http.World.External.{Platform}
use easy_http.RequestBase.{ChunkCallback}
use easy_http.RequestBase.Reply.{is_request}
use easy_http.EvRequest.{EvRequest}

-- SetChunkCallback
unfoldable pub set_chunk_callback : Option ChunkCallback → EvRequest → EvRequest
set_chunk_callback func self = record self {
  chunk_callback = func;
  is_chunked = true;
  chunks_asked = 0;
}

-- Chunk_cb(con, arg) of the object at an address: the object after it.
unfoldable pub chunk_cb : (con this : ℕ) → EvRequest → M EvRequest
chunk_cb con this self = elim self.chunk_callback [
  | none ↦ raise bad_function_call
  | some get_chunk ↦
      let (more, chunk) = get_chunk self.chunks_asked in
      let self' = record self { chunks_asked = suc self.chunks_asked } in
      if more && not (con == 0)
      then emit (send_reply_chunk_with_cb self.e_request chunk this) >> pure self'
      else emit (send_reply_end self.e_request) >> pure self'
]

-- Reply(status_code) of the object at an address. A chunked reply begins with an empty chunk.
unfoldable pub reply : (this : ℕ) → EvRequest → ℤ → M (Unit {0})
reply this self status_code =
    if is_request self.request_type
    then raise (runtime_error (text "Invalid EvRequest type! use Send function."))
    else if self.is_chunked
    then (emit (send_reply_start self.e_request status_code (text "OK"))
        >> emit (send_reply_chunk_with_cb self.e_request [] this))
    else emit (send_reply self.e_request status_code (text "ok") true)
