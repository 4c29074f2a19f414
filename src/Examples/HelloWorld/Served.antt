-- ===== src/Examples/HelloWorld/Served.antt =====
-- What the server of the example answers.
use easy_http.Prelude.{arith, ℕ, ◌≡◌, ◌≢◌, ◌∙◌, List, [], ◌∷◌, none, true}
use easy_http.Prelude.Int.{ℤ, pos}
use easy_http.Bytes.{Bytes, text}
use easy_http.Outcome.{ok}
use easy_http.World.{World, continue}
use easy_http.World.Calls.{Call, req_get, add_header, buffer_add, send_reply}
use easy_http.World.External.{Platform, matched, bad_pattern}
use easy_http.RequestBase.Fields.{path, method_of_cmd}
use easy_http.RequestBase.Content.{set_content}
use easy_http.RequestBase.Reply.{default_headers}
use easy_http.Request.{Request, of_event}
use easy_http.Response.{of_request}
use easy_http.Route.{new_route, route_get, route_post, call_route}
use easy_http.Server.{
  Server, new_server, push_route, server_get, server_post, on_request, request_handler,
}
use easy_http.Server.Target.{choose, find_first}
use easy_http.Server.Dispatch.{accepts, run_target, request_handler-choose}
use easy_http.Server.Answers.{header_calls, uri_calls, on_request-of_request}
use easy_http.Examples.{answer}
use easy_http.Examples.HelloWorld.{test1, with_routes}

module _ (pf : Platform) (ip : Bytes) (port : ℤ) (e_request : ℕ) (request : Request) (w v : World)
    (made : of_event pf e_request w ≡ (ok request, v))
    (readable : path pf request.base v ≡ (ok (text "/test1"), v))
    (is_get : pf.request_command v.calls request.base.e_request ≡ req_get)
    (matches : pf.regex_match (text "/test1") (text "/test1") ≡ matched [])
    (legal : pf.regex_match (text "/test2") (text "/test1") ≢ bad_pattern)
    (taken : (calls : List Call) (content : Bytes)
      → pf.answer calls (buffer_add request.base.e_request content) ≡ pos 0)
    (accepted : (calls : List Call) (key value : Bytes)
      → pf.answer calls (add_header e_request key value) ≡ pos 0) where
  abbrev site : Server
  site = with_routes pf (new_server ip port)

  legal1 : pf.regex_match (text "/test1") (text "/test1") ≢ bad_pattern
  legal1 e = ground arith

  handled : request_handler pf site request v ≡ (
    ok (of_request request.base (pos 200)),
    record v { calls = buffer_add request.base.e_request (text "Test1 callback") ∷ v.calls },
  )
  unfolding with_routes server_get server_post push_route route_get route_post new_route choose
      find_first accepts run_target new_server method_of_cmd test1 answer set_content call_route
      of_request
  handled =
      request_handler-choose pf site request v (text "/test1") readable (legal1, (legal, tt)) tt
      ∙ rw (matches, is_get, continue, taken v.calls (text "Test1 callback"))

  -- A GET of /test1 that is read, where libevent takes the content and the headers and the patterns
  -- are regular expressions of which the first matches, is answered by the server of the example with
  -- the content of Test1, the default headers and the status 200; then the URI of the request is
  -- freed, if the program keeps no copy of the request, and nothing else is called after the reading.
  pub on_request-with_routes : on_request pf (with_routes pf (new_server ip port)) e_request w ≡ (
    ok none,
    record v {
      calls = uri_calls pf request (
          send_reply e_request (pos 200) (text "ok") true
          ∷ header_calls e_request default_headers
              (buffer_add request.base.e_request (text "Test1 callback") ∷ v.calls));
    },
  )
  on_request-with_routes =
      on_request-of_request pf site e_request request (pos 200) w v _ made handled accepted
