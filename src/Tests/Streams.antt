-- ===== src/Tests/Streams.antt =====
-- Examples of chunked replies in the server.
use easy_http.Prelude.{ℕ, ◌≤◌, ltb, [], ◌∷◌, ◌++◌, none, some, true, suc, ◌≡◌, ◌⊎◌, refl, arith}
use easy_http.Prelude.Int.{pos}
use easy_http.Bytes.{text, same, c_str}
use easy_http.Outcome.{ok}
use easy_http.World.{pure}
use easy_http.World.Calls.{Call}
use easy_http.World.Count.{total}
use easy_http.RequestBase.{ChunkCallback, get}
use easy_http.RequestBase.Fields.{path, method}
use easy_http.RequestBase.Derived.{derived_response, derived_set_chunk_callback}
use easy_http.RequestBase.Reply.{ChunkState}
use easy_http.RequestBase.Reply.Chunks.{fire, at_chunk, after_calls, closing_calls, chunk_calls}
use easy_http.RequestBase.Url.{url_is}
use easy_http.Response.{Response, of_request}
use easy_http.Middleware.{Handler}
use easy_http.Route.{new_route, call_route, is_route_match, matches_request}
use easy_http.Server.{Server, on_request, request_handler, try_routes}
use easy_http.Server.Quiet.{IsReplyCount, IsQuietServer}
use easy_http.Server.Loop.{Loop, Reach, arrive, here, next}
use easy_http.Server.Loop.Invariant.{IsBalanced, Reach-IsBalanced}
use easy_http.Server.Loop.Drain.{IsStopping, Fires, Fires-bounded}
use easy_http.Server.Streams.{begun, released, begun_timer, on_request-chunked}
use easy_http.Tests.{sample_platform, sample_world, made_world, made_request, made_lem}

-- Two chunks, and no more.
abbrev two_chunks : ChunkCallback
two_chunks i = (ltb i 2, text "chunk")

abbrev in_chunks : Handler
in_chunks request = pure (
    derived_set_chunk_callback Response derived_response sample_platform (some two_chunks)
      (of_request request.base (pos 200)))

abbrev chunk_server : Server
chunk_server = record {
  is_started = true;
  http_ip = text "0.0.0.0";
  http_port = 80;
  e_base = 1;
  e_http_server = 1;
  routes = new_route get (text "/a") in_chunks ∷ [];
  controllers = [];
}

handled_lem : request_handler sample_platform chunk_server made_request made_world ≡ (
  ok (
      derived_set_chunk_callback Response derived_response sample_platform
        (some two_chunks)
        (of_request made_request.base (pos 200))),
  made_world,
)
unfolding request_handler try_routes is_route_match matches_request url_is new_route path method
    same c_str call_route
handled_lem = refl

-- The reply that the request begins.
abbrev state : ChunkState
state = at_chunk sample_platform 1 (begun_timer sample_platform 1 made_world) two_chunks 0

on_request-chunked_example :
    (on_request sample_platform chunk_server 1 sample_world ≡ (
      ok (some state),
      released sample_platform made_request (begun sample_platform 1 (pos 200) made_world),
    ))
    × (fire sample_platform 3 state
          (released sample_platform made_request (begun sample_platform 1 (pos 200) made_world))
        ≡ (
          ok none,
          after_calls sample_platform 1 state.timer two_chunks
              (closing_calls sample_platform 1 state.timer two_chunks
                ++ chunk_calls sample_platform 1 state.timer two_chunks 0 2)
              (released sample_platform made_request
                (begun sample_platform 1 (pos 200) made_world)),
        ))
on_request-chunked_example =
    on_request-chunked sample_platform chunk_server 1 made_request two_chunks 2 (pos 200)
      sample_world made_world made_world made_lem handled_lem (λ calls key value. refl)
      (λ calls. refl) (λ j below. ground arith) refl

chunk_server-IsQuietServer :
    (count : Call → ℕ) → IsReplyCount count → IsQuietServer count chunk_server
unfolding new_route
chunk_server-IsQuietServer count h = (((λ request. record { at = λ w. refl }, tt), tt), tt)

-- Nothing is armed; then the request has come.
abbrev idle : Loop
idle = record { armed = []; world = sample_world }

abbrev busy : Loop
busy = record {
  armed = state ∷ [];
  world = released sample_platform made_request (begun sample_platform 1 (pos 200) made_world);
}

began_lem : on_request sample_platform chunk_server 1 sample_world ≡ (
  ok (some state),
  released sample_platform made_request (begun sample_platform 1 (pos 200) made_world),
)
began_lem =
    (on_request-chunked sample_platform chunk_server 1 made_request two_chunks 2 (pos 200)
      sample_world made_world made_world made_lem handled_lem (λ calls key value. refl)
      (λ calls. refl) (λ j below. ground arith) refl).0

arrives : Reach sample_platform chunk_server idle busy
arrives = next here (arrive 1 (some state) began_lem refl)

idle-IsBalanced : IsBalanced idle
unfolding total
idle-IsBalanced = (refl, refl, refl)

Reach-IsBalanced_example : IsBalanced busy
Reach-IsBalanced_example =
    Reach-IsBalanced sample_platform chunk_server chunk_server-IsQuietServer idle busy
      idle-IsBalanced arrives

state-IsStopping : IsStopping state
state-IsStopping = record { callback = two_chunks; calls = 2; get_chunk = refl; stops = refl }

Fires-bounded_example :
    (bound : ℕ) × ((k : ℕ) (b : Loop)
      → Fires sample_platform busy k b
      → (k ≤ bound) × ((b.armed ≡ []) ⊎ ((c : Loop) × Fires sample_platform busy (suc k) c)))
Fires-bounded_example = Fires-bounded sample_platform busy (state-IsStopping, tt)
