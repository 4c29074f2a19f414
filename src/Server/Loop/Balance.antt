-- ===== src/Server/Loop/Balance.antt =====
-- What is begun and made for chunked replies, and what is ended and freed.
use easy_http.Prelude.{
  ℕ, ◌+◌, ◌*◌, ◌≡◌, refl, ◌∙◌, arith, Option, none, some, Bool, true, false, if◌then◌else◌, not,
  ◌&&◌, ◌==◌,
}
use easy_http.Prelude.Int.{ℤ, pos}
use easy_http.Bytes.{Bytes, text}
use easy_http.Outcome.{Exception, Outcome, ok, throw, undefined, foreign}
use easy_http.World.{World, M, ◌>>=◌, continue, recover, finally, unwind}
use easy_http.World.Calls.{
  Call, send_reply, send_reply_start, send_reply_chunk, send_reply_end, timer_new, timer_add,
  event_free, free_state, print_crash,
}
use easy_http.World.Count.{total}
use easy_http.World.External.{Platform}
use easy_http.RequestBase.{RequestBase, release, ChunkCallback}
use easy_http.RequestBase.Headers.{push_headers}
use easy_http.RequestBase.Reply.{
  ChunkState, is_request, reply, send_out, start_chunked, schedule_trickle, default_headers,
  trickle,
}
use easy_http.Request.{of_event}
use easy_http.Response.{Response, send}
use easy_http.Server.{
  Server, try_routes, request_handler, release_response, serve, on_request, on_crash,
}
use easy_http.Server.Quiet.{
  IsReplyCount, IsQuiet, IsQuietServer, of_event-IsQuiet, push_headers-IsQuiet,
  try_routes-IsQuietHandler, release-total, release_response-total,
}

-- What the calls of a chunked reply count for: its beginning, and its end. Nothing else counts.
pub record HasWeights (count : Call → ℕ) (first last : ℕ) : Type 0 where
  pub others : IsReplyCount count
  pub plain :
      (request : ℕ) (code : ℤ) (reason : Bytes) (with_output : Bool)
      → count (send_reply request code reason with_output) ≡ 0
  pub begins :
      (base request : ℕ) (code : ℤ) (reason : Bytes)
      → count (timer_new base request) + count (send_reply_start request code reason) ≡ first
  pub chunk : (request : ℕ) (chunk : Bytes) → count (send_reply_chunk request chunk) ≡ 0
  pub arms : (timer usec : ℕ) → count (timer_add timer usec) ≡ 0
  pub finishes :
      (request timer : ℕ)
      → count (send_reply_end request) + (count (event_free timer) + count (free_state request))
        ≡ last

abbrev pub size : Option ChunkState → ℕ
size none = 0
size (some state) = 1

module _ (pf : Platform) (count : Call → ℕ) (first last : ℕ)
    (weights : HasWeights count first last) where
  -- What a method that sends a response adds.
  abbrev pub Begins : World → Outcome (Option ChunkState) × World → Type 0
  Begins w (ok started, v) = total count v.calls ≡ total count w.calls + size started * first
  Begins w (throw e, v) = total count v.calls ≡ total count w.calls
  Begins w (undefined, v) = Unit

  bind-Begins :
      {A : Type 0} (m : M A) (f : A → M (Option ChunkState))
      → IsQuiet count m
      → ((a : A) (w : World) → Begins w (f a w))
      → (w : World) → Begins w ((m >>= f) w)
  bind-Begins {A} m f q r w = after (m w) (q.at w)
    where
      after :
          (p : Outcome A × World)
          → total count p.1.calls ≡ total count w.calls
          → Begins w (continue f p)
      after (ok a, v) e = shift (f a v) (r a v)
        where
          shift : (o : Outcome (Option ChunkState) × World) → Begins v o → Begins w o
          shift (ok b, u) k = omega (arith, e, k)
          shift (throw x, u) k = omega (arith, e, k)
          shift (undefined, u) k = tt
      after (throw x, v) e = e
      after (undefined, v) e = tt

  finally-Begins :
      (destroy : World → World) (m : M (Option ChunkState)) (w : World)
      → ((v : World) → total count (destroy v).calls ≡ total count v.calls)
      → Begins w (m w)
      → Begins w (finally destroy m w)
  finally-Begins destroy m w same h = after (m w) h
    where
      after : (p : Outcome (Option ChunkState) × World) → Begins w p → Begins w (unwind destroy p)
      after (ok a, v) k = same v ∙ k
      after (throw x, v) k = same v ∙ k
      after (undefined, v) k = k

  if-Begins :
      (b : Bool) (m n : M (Option ChunkState)) (w : World)
      → Begins w (m w)
      → Begins w (n w)
      → Begins w ((if b then m else n) w)
  if-Begins true m n w p q = p
  if-Begins false m n w p q = q

  send_out-Begins : (self : RequestBase) (code : ℤ) (w : World) → Begins w (send_out pf self code w)
  unfolding send_out start_chunked schedule_trickle total
  send_out-Begins self code w =
      if-Begins self.is_chunked _ _ w
        (omega (
          arith,
          weights.begins (base w) self.e_request code (text "OK"),
          weights.arms (pf.pointer w.calls (timer_new (base w) self.e_request)) 0,
        ))
        (omega (arith, weights.plain self.e_request code (text "ok") true))
    where
      base : World → ℕ
      base w = pf.connection_base w.calls (pf.request_connection w.calls self.e_request)

  send-Begins : (response : Response) (w : World) → Begins w (send pf response w)
  unfolding send reply
  send-Begins response w = if-Begins (is_request response.base.request_type) _ _ w refl (
      bind-Begins (push_headers pf response.base default_headers)
        (λ _. send_out pf response.base response.status_code)
        (push_headers-IsQuiet count weights.others pf response.base default_headers)
        (λ _. send_out-Begins response.base response.status_code) w)

  serve-Begins :
      (s : Server)
      → IsQuietServer count s
      → (e_request : ℕ) (w : World) → Begins w (serve pf s e_request w)
  unfolding serve request_handler
  serve-Begins s q e_request w =
      bind-Begins (of_event pf e_request) _ (of_event-IsQuiet count weights.others pf e_request)
        (λ request v.
          let answer : Response → M (Option ChunkState) = λ response.
            finally (release_response pf request.base response.base) (send pf response) in
          finally-Begins (release pf request.base)
            (try_routes pf s.routes s.controllers request >>= answer) v
            (release-total count weights.others pf request.base)
            (bind-Begins (try_routes pf s.routes s.controllers request) answer
              (try_routes-IsQuietHandler count weights.others pf s.routes s.controllers q.0 q.1
                request)
              (λ response u.
                finally-Begins (release_response pf request.base response.base) (send pf response) u
                  (release_response-total count weights.others pf request.base response.base)
                  (send-Begins response u))
              v))
        w

  recover-Begins :
      (e_request : ℕ) (w : World) (p : Outcome (Option ChunkState) × World)
      → Begins w p
      → Begins w (recover (on_crash pf e_request) p)
  unfolding on_crash total
  recover-Begins e_request w (ok started, v) h = h
  recover-Begins e_request w (throw e, v) h = crashed e v h
    where
      crashed :
          (e : Exception) (v : World)
          → total count v.calls ≡ total count w.calls
          → Begins w (recover (on_crash pf e_request) (throw e, v))
      crashed (foreign n) v h = h
      crashed _ v h = omega (
        arith,
        weights.plain e_request (pos 500) (text "ok") false,
        weights.others (print_crash e_request) refl,
      )
  recover-Begins e_request w (undefined, v) h = tt

  pub on_request-Begins :
      (s : Server)
      → IsQuietServer count s
      → (e_request : ℕ) (w : World) → Begins w (on_request pf s e_request w)
  unfolding on_request
  on_request-Begins s q e_request w = recover-Begins e_request w _ (serve-Begins s q e_request w)

  -- What a firing of a timer adds.
  abbrev pub Ends : World → Outcome (Option ChunkState) × World → Type 0
  Ends w (ok left, v) = total count v.calls + size left * last ≡ total count w.calls + last
  Ends w (throw e, v) = Unit
  Ends w (undefined, v) = Unit

  if-Ends :
      (b : Bool) (m n : M (Option ChunkState)) (w : World)
      → Ends w (m w)
      → Ends w (n w)
      → Ends w ((if b then m else n) w)
  if-Ends true m n w p q = p
  if-Ends false m n w p q = q

  pub trickle-Ends : (state : ChunkState) (w : World) → Ends w (trickle pf state w)
  unfolding trickle schedule_trickle total
  trickle-Ends state w = of_callback state.get_chunk
    where
      of_callback :
          (o : Option ChunkCallback) → Ends w (trickle pf (record state { get_chunk = o }) w)
      of_callback none = tt
      of_callback (some f) =
          if-Ends ((f state.i).0 && not (pf.request_connection w.calls state.req == 0)) _ _ w
            (omega (arith, weights.chunk state.req (f state.i).1, weights.arms state.timer 30000))
            (omega (arith, weights.finishes state.req state.timer))
