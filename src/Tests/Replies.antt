-- ===== src/Tests/Replies.antt =====
-- Examples of the replies, the status codes and the files.
use easy_http.Prelude.{ltb, [], ◌∷◌, ◌++◌, none, true, ◌≡◌, refl, arith}
use easy_http.Prelude.Int.{pos}
use easy_http.Bytes.{text}
use easy_http.Outcome.{ok}
use easy_http.World.{pure}
use easy_http.RequestBase.{ChunkCallback, get}
use easy_http.RequestBase.Reply.Chunks.{
  fire, at_chunk, chunk_calls, closing_calls, after_calls, fire_complete,
}
use easy_http.Response.{Response, of_request}
use easy_http.Route.{new_route}
use easy_http.Server.{Server, on_request}
use easy_http.Server.Quiet.{IsQuietServer}
use easy_http.Server.Replies.{begins_reply, IsAnswered, on_request-IsAnswered}
use easy_http.Tests.{sample_platform, sample_world, sample_base}

-- Two chunks, and no more.
abbrev two_chunks : ChunkCallback
two_chunks i = (ltb i 2, text "chunk")

fire_complete_example :
    fire sample_platform 3 (at_chunk sample_platform 1 5 two_chunks 0) sample_world ≡ (
      ok none,
      after_calls sample_platform 1 5 two_chunks
          (closing_calls sample_platform 1 5 two_chunks
            ++ chunk_calls sample_platform 1 5 two_chunks 0 2)
          sample_world,
    )
fire_complete_example =
    fire_complete sample_platform 1 5 two_chunks 2 0 sample_world (λ calls. refl)
      (λ j below. ground arith) refl

abbrev forbidden : Response
forbidden = of_request sample_base (pos 403)

abbrev one_route_server : Server
one_route_server = record {
  is_started = true;
  http_ip = text "0.0.0.0";
  http_port = 80;
  e_base = 1;
  e_http_server = 1;
  routes = new_route get (text "/a") (λ request. pure (of_request request.base (pos 200))) ∷ [];
  controllers = [];
}

one_route_server-IsQuietServer : IsQuietServer begins_reply one_route_server
unfolding new_route
one_route_server-IsQuietServer = (((λ request. record { at = λ w. refl }, tt), tt), tt)

on_request-IsAnswered_example :
    IsAnswered sample_platform sample_world
      (on_request sample_platform one_route_server 1 sample_world)
on_request-IsAnswered_example =
    on_request-IsAnswered sample_platform one_route_server 1 sample_world
      one_route_server-IsQuietServer
