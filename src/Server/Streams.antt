-- ===== src/Server/Streams.antt =====
-- Replies that are sent in chunks, from the request to the last chunk.
use mathlib.Core.Path.{subst}
use easy_http.Prelude.{
  ℕ, suc, ◌+◌, ◌<◌, ◌≡◌, refl, ap, arith, ==_iff, List, ◌∷◌, ◌++◌, none, some, true, false, ◌==◌,
}
use easy_http.Prelude.Int.{ℤ, pos}
use easy_http.Bytes.{Bytes, text}
use easy_http.Outcome.{ok}
use easy_http.World.{World, continue}
use easy_http.World.Calls.{Call, add_header, send_reply_start, timer_new, timer_add}
use easy_http.World.External.{Platform}
use easy_http.World.Yields.{OfResult}
use easy_http.RequestBase.{RequestBase, ChunkCallback, response, set_chunk_callback}
use easy_http.RequestBase.Derived.{derived_response, derived_set_chunk_callback}
use easy_http.RequestBase.Reply.{
  is_request, default_headers, send_out, start_chunked, schedule_trickle, reply,
}
use easy_http.RequestBase.Reply.Chunks.{
  fire, at_chunk, after_calls, closing_calls, chunk_calls, fire_complete,
}
use easy_http.Request.{Request, of_event}
use easy_http.Response.{Response, send, of_request}
use easy_http.Server.{Server, serve, on_request, request_handler}
use easy_http.Server.Answers.{
  header_calls, IsPlain, of_event-IsPlain, push_headers-accepted, uri_calls, release-uri_calls,
}

module _ (pf : Platform) where
  module _ (e_request : ℕ) where
    -- The event base of the request's connection, after the calls.
    abbrev pub base_of : List Call → ℕ
    base_of calls = pf.connection_base calls (pf.request_connection calls e_request)

    -- The timer of the reply.
    abbrev pub timer_of : List Call → ℕ
    timer_of calls = pf.pointer calls (timer_new (base_of calls) e_request)

    -- The calls that begin a chunked reply: its timer is made, and it is armed to fire at once.
    abbrev pub opening_calls : ℤ → List Call → List Call
    opening_calls code calls =
        timer_add (timer_of calls) 0
        ∷ send_reply_start e_request code (text "OK")
        ∷ timer_new (base_of calls) e_request
        ∷ calls

    -- The timer and the world of a reply that was begun after the calls that a world has.
    abbrev pub begun_timer : World → ℕ
    begun_timer w = timer_of (header_calls e_request default_headers w.calls)

    abbrev pub begun : ℤ → World → World
    begun code w = record w {
      calls = opening_calls code (header_calls e_request default_headers w.calls);
    }

  -- The world after the destructors of a request and of a response made of it.
  abbrev pub released : Request → World → World
  released request w = record w { calls = uri_calls pf request w.calls }

  reply-chunked :
      (self : RequestBase) (f : ChunkCallback) (status_code : ℤ) (w : World)
      → ((calls : List Call) (key value : Bytes)
          → pf.answer calls (add_header self.e_request key value) ≡ pos 0)
      → self.request_type ≡ response
      → reply pf (set_chunk_callback (some f) self) status_code w ≡ (
        ok (some (at_chunk pf self.e_request (begun_timer self.e_request w) f 0)),
        begun self.e_request status_code w,
      )
  unfolding reply send_out start_chunked schedule_trickle set_chunk_callback
  reply-chunked self f status_code w accepted t =
      let u : is_request self.request_type ≡ false = ap is_request t in
      rw (u, push_headers-accepted pf (set_chunk_callback (some f) self) accepted default_headers w)

  -- If a request is read, the server's handler gives a response made of it with a chunk callback,
  -- libevent takes every header, the connection stays, and the callback gives n chunks and then
  -- stops, then the libevent callback sets the default headers and begins a reply, and after n + 1
  -- firings of the reply's timer all the chunks were sent in their order, the reply was ended, and
  -- the timer and the state were freed.
  pub on_request-chunked :
      (s : Server) (e_request : ℕ) (request : Request) (f : ChunkCallback) (n : ℕ) (code : ℤ)
      (w v u : World)
      → of_event pf e_request w ≡ (ok request, v)
      → request_handler pf s request v ≡ (
        ok (
            derived_set_chunk_callback Response derived_response pf
              (some f)
              (of_request request.base code)),
        u,
      )
      → ((calls : List Call) (key value : Bytes)
          → pf.answer calls (add_header e_request key value) ≡ pos 0)
      → ((calls : List Call) → (pf.request_connection calls e_request == 0) ≡ false)
      → ((j : ℕ) → j < n → (f j).0 ≡ true)
      → (f n).0 ≡ false
      → (on_request pf s e_request w ≡ (
        ok (some (at_chunk pf e_request (begun_timer e_request u) f 0)),
        released request (begun e_request code u),
      ))
        × (fire pf
              (suc n)
              (at_chunk pf e_request (begun_timer e_request u) f 0)
              (released request (begun e_request code u))
            ≡ (
              ok none,
              after_calls pf e_request
                  (begun_timer e_request u)
                  f
                  (closing_calls pf e_request (begun_timer e_request u) f
                    ++ chunk_calls pf e_request (begun_timer e_request u) f 0 n)
                  (released request (begun e_request code u)),
            ))
  unfolding on_request serve send of_request derived_set_chunk_callback set_chunk_callback
  on_request-chunked s e_request request f n code w v u made handled accepted alive more stop =
      let (t, c, e) =
        subst (OfResult (λ (r : Request). IsPlain pf e_request r.base)) made
          ((of_event-IsPlain pf e_request).at w) in
      let shared = (==_iff request.base.cb_container request.base.cb_container).1 refl in
      let accepted' : (calls : List Call) (key value : Bytes)
          → pf.answer calls (add_header request.base.e_request key value) ≡ pos 0 =
        rw e accepted in
      (
        rw (made, continue, handled, reply-chunked request.base f code u accepted' t, shared, e)
            (ap (λ v. (ok (some (at_chunk pf e_request (begun_timer e_request u) f 0)), v))
              (release-uri_calls pf request _)),
        fire_complete pf e_request (begun_timer e_request u) f n 0
            (released request (begun e_request code u)) alive
            (λ j below. let index : 0 + j ≡ j = omega arith in rw index (more j below))
            (let index : 0 + n ≡ n = omega arith in rw index stop),
      )
