-- ===== src/Tests/Sites.antt =====
-- Examples of whole servers, and of the values and the chunks that they handle.
use easy_http.Prelude.{
  ℕ, ◌≤◌, ltb, [], ◌∷◌, ◌++◌, none, some, true, if◌then◌else◌, ◌≡◌, ◌≢◌, Bool-cases, inl, inr, refl,
  arith,
}
use easy_http.Prelude.Int.{pos}
use easy_http.Bytes.{Bytes, text, same, c_str}
use easy_http.Outcome.{ok}
use easy_http.World.{World, pure, ◌>>◌}
use easy_http.RequestBase.Content.{set_content}
use easy_http.World.Calls.{send_reply, buffer_add, uri_free}
use easy_http.World.External.{Platform, bad_pattern, matched}
use easy_http.RequestBase.Headers.{header}
use easy_http.Values.{string}
use easy_http.Queries.{queries, parse_query}
use easy_http.RequestBase.{
  ChunkCallback, get, of_received, of_received_from, headers, collect_headers,
}
use easy_http.RequestBase.Fields.{path}
use easy_http.RequestBase.Reply.{default_headers}
use easy_http.RequestBase.Reply.Chunks.{
  fire, at_chunk, chunk_calls, closing_calls, after_calls, fire_finishes,
}
use easy_http.Request.{of_event}
use easy_http.Response.{of_request}
use easy_http.Route.{new_route, is_route_match, matches_request}
use easy_http.Controller.{
  new_controller, handle_routes, add_middleware, controller_get, controller_post,
}
use easy_http.Server.{
  Server, new_server, register_controller, request_handler, on_request, try_routes, try_controllers,
}
use easy_http.Server.Target.{choose, find_first, is_found}
use easy_http.Server.Dispatch.{accepts}
use easy_http.Server.NotFound.{on_request-not_found}
use easy_http.Server.Answers.{header_calls, on_request-of_request}
use easy_http.Examples.HelloWorld.{with_routes}
use easy_http.Examples.HelloWorld.Served.{on_request-with_routes}
use easy_http.RequestBase.Url.{url_is}
use easy_http.Examples.Authentication.{chain_of, my_controller}
use easy_http.Examples.Authentication.Access.{
  token, users, users_routes, request_handler-my_controller,
}
use easy_http.Tests.{
  sample_match, last_query, sample_platform, sample_world, sample_request, made_world, made_request,
  made_lem,
}

sample_match_legal : (pattern s : Bytes) → sample_match pattern s ≢ bad_pattern
sample_match_legal pattern s = elim (Bool-cases (same pattern s)) [
  | inl h ↦ λ e. ground arith
  | inr h ↦ λ e. ground arith
]

abbrev one_chunk : ChunkCallback
one_chunk i = (ltb i 1, text "chunk")

fire_finishes_example :
    (k : ℕ) × (k ≤ 1)
    × (fire sample_platform 2 (at_chunk sample_platform 1 5 one_chunk 0) sample_world ≡ (
      ok none,
      after_calls sample_platform 1 5 one_chunk
          (closing_calls sample_platform 1 5 one_chunk
            ++ chunk_calls sample_platform 1 5 one_chunk 0 k)
          sample_world,
    ))
fire_finishes_example = fire_finishes sample_platform 1 5 one_chunk 1 0 sample_world refl

-- The controller of the example, and a request for its first route.
abbrev at_test1 : Platform
at_test1 = record sample_platform { uri_path = λ calls uri. some (text "/users/test1") }

users_made : my_controller at_test1 (text "/users") ≡ ok (users at_test1)
unfolding my_controller new_controller users users_routes chain_of add_middleware controller_post
    controller_get
users_made = refl

test1_readable :
    path at_test1 sample_request.base sample_world ≡ (ok (text "/users/test1"), sample_world)
unfolding path c_str
test1_readable = refl

request_handler-my_controller_example :
    request_handler at_test1
      (register_controller (users at_test1) (new_server (text "0.0.0.0") (pos 4000)))
      sample_request
      sample_world
    ≡ (if is_found (
          find_first
            (accepts at_test1 sample_request sample_world (text "/users/test1"))
            (users_routes at_test1))
        then (if same
              (header at_test1 string sample_request.base (text "Authorization") [])
              (token at_test1)
            then handle_routes at_test1 (users_routes at_test1) sample_request sample_world
            else (do
              set_content at_test1
                  (of_request sample_request.base (pos 401)).base
                  (text "authentication failed")
              pure (of_request sample_request.base (pos 401)))
                sample_world)
        else pure (of_request sample_request.base (pos 404)) sample_world)
request_handler-my_controller_example =
    request_handler-my_controller at_test1 (users at_test1) users_made (text "0.0.0.0") (pos 4000)
      sample_request sample_world (text "/users/test1") test1_readable
      (sample_match_legal (text "/users/test1") (text "/users/test1"))
      (sample_match_legal (text "/users/test2") (text "/users/test1"))

-- A server with one route, for another path than that of the sample requests.
abbrev elsewhere : Server
elsewhere = record (new_server (text "0.0.0.0") (pos 8080)) {
  routes = new_route get (text "/b") (λ request. pure (of_request request.base (pos 200))) ∷ [];
}

made_readable : path sample_platform made_request.base made_world ≡ (ok (text "/a"), made_world)
unfolding path c_str
made_readable = refl

elsewhere_lem :
    choose
      (accepts sample_platform made_request made_world (text "/a"))
      elsewhere.routes
      elsewhere.controllers
    ≡ easy_http.Server.Target.not_found
unfolding choose find_first accepts new_server new_route same
elsewhere_lem = refl

elsewhere_handled :
    request_handler sample_platform elsewhere made_request made_world
    ≡ (ok (of_request made_request.base (pos 404)), made_world)
unfolding request_handler try_routes try_controllers is_route_match matches_request url_is
    new_server new_route path same c_str
elsewhere_handled = refl

on_request-not_found_example : on_request sample_platform elsewhere 1 sample_world ≡ (
  ok none,
  record made_world {
    calls =
        uri_free 1
        ∷ send_reply 1 (pos 404) (text "ok") true
        ∷ header_calls 1 default_headers made_world.calls;
  },
)
unfolding new_server new_route
on_request-not_found_example =
    on_request-not_found sample_platform elsewhere 1 made_request (text "/a") sample_world
      made_world made_lem made_readable ((sample_match_legal (text "/b") (text "/a")), tt) tt
      elsewhere_lem (λ calls key value. refl)

-- The server of the first example, and a request for its first route.
abbrev at_hello : Platform
at_hello = record sample_platform { uri_path = λ calls uri. some (text "/test1") }

abbrev hello_world : World
hello_world = (of_event at_hello 1 sample_world).1

hello_lem : of_event at_hello 1 sample_world ≡ (ok made_request, hello_world)
unfolding of_event of_received of_received_from headers collect_headers queries parse_query
    last_query
hello_lem = refl

hello_readable : path at_hello made_request.base hello_world ≡ (ok (text "/test1"), hello_world)
unfolding path c_str
hello_readable = refl

hello_matches : sample_match (text "/test1") (text "/test1") ≡ matched []
unfolding same
hello_matches = refl

on_request-with_routes_example :
    on_request at_hello
      (with_routes at_hello (new_server (text "0.0.0.0") (pos 4000)))
      1
      sample_world
    ≡ (
      ok none,
      record hello_world {
        calls =
            uri_free 1
            ∷ send_reply 1 (pos 200) (text "ok") true
            ∷ header_calls 1 default_headers
                (buffer_add 1 (text "Test1 callback") ∷ hello_world.calls);
      },
    )
on_request-with_routes_example =
    on_request-with_routes at_hello (text "0.0.0.0") (pos 4000) 1 made_request sample_world
      hello_world hello_lem hello_readable refl hello_matches
      (sample_match_legal (text "/test2") (text "/test1")) (λ calls content. refl)
      (λ calls key value. refl)

on_request-of_request_example : on_request sample_platform elsewhere 1 sample_world ≡ (
  ok none,
  record made_world {
    calls =
        uri_free 1
        ∷ send_reply 1 (pos 404) (text "ok") true
        ∷ header_calls 1 default_headers made_world.calls;
  },
)
on_request-of_request_example =
    on_request-of_request sample_platform elsewhere 1 made_request (pos 404) sample_world made_world
      made_world made_lem elsewhere_handled (λ calls key value. refl)
