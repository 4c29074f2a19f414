-- ===== src/Server/Replies.antt =====
-- Every request gets one reply.
use easy_http.Prelude.{
  List, ℕ, ◌+◌, ◌≡◌, refl, ◌∙◌, arith, Option, Bool, true, false, if◌then◌else◌,
}
use easy_http.Outcome.{Outcome, Exception, ok, throw, undefined, foreign}
use easy_http.World.{World, M, ◌>>=◌, continue, recover, is_std_exception, finally, unwind}
use easy_http.World.Count.{total}
use easy_http.World.Calls.{Call, send_reply, send_reply_start}
use easy_http.World.External.{Platform}
use easy_http.RequestBase.{RequestBase, release}
use easy_http.RequestBase.Headers.{push_headers}
use easy_http.RequestBase.Reply.{
  ChunkState, is_request, reply, send_out, start_chunked, schedule_trickle, default_headers,
}
use easy_http.Request.{of_event}
use easy_http.Response.{Response, send}
use easy_http.Prelude.Int.{ℤ}
use easy_http.Server.{
  Server, try_routes, request_handler, release_response, serve, on_request, on_crash,
}
use easy_http.Server.Quiet.{
  IsReplyCount, IsQuiet, IsQuietServer, of_event-IsQuiet, push_headers-IsQuiet,
  try_routes-IsQuietHandler, release-total, release_response-total,
}

-- The calls that begin a reply.
abbrev pub begins_reply : Call → ℕ
begins_reply (send_reply request code reason with_output) = 1
begins_reply (send_reply_start request code reason) = 1
begins_reply _ = 0

-- How many replies were begun.
abbrev pub replies : List Call → ℕ
replies calls = total begins_reply calls

begins_reply-IsReplyCount : IsReplyCount begins_reply
begins_reply-IsReplyCount (send_reply request code reason with_output) h = cc
begins_reply-IsReplyCount (send_reply_start request code reason) h = cc
begins_reply-IsReplyCount _ h = refl

module _ (pf : Platform) where
  -- One more reply if the method returned, none more if it did not.
  abbrev OneIfOk : {A : Type 0} → World → Outcome A × World → Type 0
  OneIfOk w (ok a, w') = replies w'.calls ≡ replies w.calls + 1
  OneIfOk w (throw e, w') = replies w'.calls ≡ replies w.calls
  OneIfOk w (undefined, w') = replies w'.calls ≡ replies w.calls

  -- Quiet steps before a step that replies.
  bind-one :
      {A B : Type 0} (m : M A) (f : A → M B)
      → IsQuiet begins_reply m
      → ((a : A) (w : World) → OneIfOk w (f a w))
      → (w : World) → OneIfOk w ((m >>= f) w)
  bind-one {A} {B} m f q r w = after (m w) (q.at w)
    where
      after :
          (p : Outcome A × World) → replies p.1.calls ≡ replies w.calls → OneIfOk w (continue f p)
      after (ok a, w') e = shift (f a w') (r a w')
        where
          shift : (o : Outcome B × World) → OneIfOk w' o → OneIfOk w o
          shift (ok b, v) k = omega arith
          shift (throw x, v) k = omega arith
          shift (undefined, v) k = omega arith
      after (throw x, w') e = e
      after (undefined, w') e = e

  finally-one :
      {A : Type 0} (destroy : World → World) (m : M A) (w : World)
      → ((v : World) → replies (destroy v).calls ≡ replies v.calls)
      → OneIfOk w (m w)
      → OneIfOk w (finally destroy m w)
  finally-one {A} destroy m w same h = after (m w) h
    where
      after : (p : Outcome A × World) → OneIfOk w p → OneIfOk w (unwind destroy p)
      after (ok a, v) k = same v ∙ k
      after (throw x, v) k = same v ∙ k
      after (undefined, v) k = k

  if-one :
      {A : Type 0} (b : Bool) (m n : M A) (w : World)
      → OneIfOk w (m w)
      → OneIfOk w (n w)
      → OneIfOk w ((if b then m else n) w)
  if-one true m n w p q = p
  if-one false m n w p q = q

  send_out-one : (self : RequestBase) (code : ℤ) (w : World) → OneIfOk w (send_out pf self code w)
  unfolding send_out start_chunked schedule_trickle total
  send_out-one self code w = if-one self.is_chunked _ _ w (omega arith) (omega arith)

  send-one : (response : Response) (w : World) → OneIfOk w (send pf response w)
  unfolding send reply
  send-one response w = if-one (is_request response.base.request_type) _ _ w refl (
      bind-one (push_headers pf response.base default_headers)
        (λ _. send_out pf response.base response.status_code)
        (push_headers-IsQuiet begins_reply begins_reply-IsReplyCount pf response.base
          default_headers)
        (λ _. send_out-one response.base response.status_code) w)

  serve-one :
      (s : Server)
      → IsQuietServer begins_reply s
      → (e_request : ℕ) (w : World) → OneIfOk w (serve pf s e_request w)
  unfolding serve request_handler
  serve-one s q e_request w =
      bind-one (of_event pf e_request) _
        (of_event-IsQuiet begins_reply begins_reply-IsReplyCount pf e_request)
        (λ request v.
          let answer : Response → M (Option ChunkState) = λ response.
            finally (release_response pf request.base response.base) (send pf response) in
          finally-one (release pf request.base)
            (try_routes pf s.routes s.controllers request >>= answer) v
            (release-total begins_reply begins_reply-IsReplyCount pf request.base)
            (bind-one (try_routes pf s.routes s.controllers request) answer
              (try_routes-IsQuietHandler begins_reply begins_reply-IsReplyCount pf s.routes
                s.controllers q.0 q.1 request)
              (λ response u.
                finally-one (release_response pf request.base response.base) (send pf response) u
                  (release_response-total begins_reply begins_reply-IsReplyCount pf request.base
                    response.base)
                  (send-one response u))
              v))
        w

  -- How many replies were begun for a request, from the world before and from how it ended: one if
  -- the server returned, none if a foreign exception or undefined behaviour passed through it; a
  -- std::exception never does.
  abbrev pub IsAnswered : World → Outcome (Option ChunkState) × World → Type 0
  IsAnswered w (ok a, w') = replies w'.calls ≡ replies w.calls + 1
  IsAnswered w (throw e, w') = (is_std_exception e ≡ false) × (replies w'.calls ≡ replies w.calls)
  IsAnswered w (undefined, w') = replies w'.calls ≡ replies w.calls

  recover-IsAnswered :
      (e_request : ℕ) (w : World) (p : Outcome (Option ChunkState) × World)
      → OneIfOk w p
      → IsAnswered w (recover (on_crash pf e_request) p)
  unfolding on_crash total
  recover-IsAnswered e_request w (ok a, w') h = h
  recover-IsAnswered e_request w (throw e, w') h = crashed e w' h
    where
      crashed :
          (e : Exception) (w' : World)
          → replies w'.calls ≡ replies w.calls
          → IsAnswered w (recover (on_crash pf e_request) (throw e, w'))
      crashed (foreign n) w' h = (refl, h)
      crashed _ w' h = omega arith
  recover-IsAnswered e_request w (undefined, w') h = h

  -- Exactly one reply is begun for a request, whatever the routes, the controllers and their
  -- middleware do with it, if they begin none themselves: the server returns after one reply, or a
  -- foreign exception or undefined behaviour ends the call and there is none.
  pub on_request-IsAnswered :
      (s : Server) (e_request : ℕ) (w : World)
      → IsQuietServer begins_reply s
      → IsAnswered w (on_request pf s e_request w)
  unfolding on_request
  on_request-IsAnswered s e_request w q =
      recover-IsAnswered e_request w (serve pf s e_request w) (serve-one s q e_request w)
