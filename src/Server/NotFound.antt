-- ===== src/Server/NotFound.antt =====
-- Requests that nothing accepts.
use easy_http.Prelude.{ℕ, ◌≡◌, ◌∙◌, List, ◌∷◌, none, true, All}
use easy_http.Prelude.Int.{pos}
use easy_http.Bytes.{Bytes, text}
use easy_http.Outcome.{ok}
use easy_http.World.{World}
use easy_http.World.Calls.{Call, add_header, send_reply}
use easy_http.World.External.{Platform}
use easy_http.RequestBase.Fields.{path}
use easy_http.RequestBase.Reply.{default_headers}
use easy_http.Request.{Request, of_event}
use easy_http.Server.{Server, on_request}
use easy_http.Server.Target.{not_found, choose}
use easy_http.Server.Dispatch.{accepts, IsLegal, run_target, request_handler-choose}
use easy_http.Server.Answers.{header_calls, uri_calls, on_request-of_request}

module _ (pf : Platform) where
  -- If a request is read, its path is readable, the patterns are regular expressions, nothing accepts
  -- it and libevent takes every header, then the libevent callback sets the default headers, sends
  -- the status 404, and frees the URI of the request, if the program keeps no copy of the request; it
  -- does nothing else after the reading of the request.
  pub on_request-not_found :
      (s : Server) (e_request : ℕ) (request : Request) (p : Bytes) (w v : World)
      → of_event pf e_request w ≡ (ok request, v)
      → path pf request.base v ≡ (ok p, v)
      → All (IsLegal pf request v p) s.routes
      → All (λ c. All (IsLegal pf request v p) c.routes) s.controllers
      → choose (accepts pf request v p) s.routes s.controllers ≡ not_found
      → ((calls : List Call) (key value : Bytes)
          → pf.answer calls (add_header e_request key value) ≡ pos 0)
      → on_request pf s e_request w ≡ (
        ok none,
        record v {
          calls = uri_calls pf request (
              send_reply e_request (pos 404) (text "ok") true
              ∷ header_calls e_request default_headers v.calls);
        },
      )
  unfolding run_target
  on_request-not_found s e_request request p w v made readable legal_r legal_c nothing accepted =
      on_request-of_request pf s e_request request (pos 404) w v v made
        (request_handler-choose pf s request v p readable legal_r legal_c ∙ rw nothing) accepted
