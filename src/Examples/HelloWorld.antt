-- ===== src/Examples/HelloWorld.antt =====
-- examples/server_hello_world/main.cpp: a server with two routes.
pub mod Served
use easy_http.Prelude.Int.{ℤ, pos}
use easy_http.Bytes.{text}
use easy_http.World.{M, ◌>>=◌, ◌>>◌}
use easy_http.World.External.{Platform}
use easy_http.Queries.{queries}
use easy_http.RequestBase.{headers}
use easy_http.Middleware.{Handler}
use easy_http.Server.{Server, server_get, server_post}
use easy_http.Server.Lifecycle.{construct}
use easy_http.Examples.{answer, greeting, run}

module _ (pf : Platform) where
  unfoldable pub test1 : Handler
  test1 = answer pf 200 (text "Test1 callback")

  -- Test2 reads the headers and the parameters anew, to print them.
  unfoldable pub test2 : Handler
  test2 request = do
    headers pf request.base.e_request
    queries pf request.base.e_uri
    answer pf 200 (greeting pf request) request

  -- The calls of main() that fill the table.
  unfoldable pub with_routes : Server → Server
  with_routes s = server_post (text "/test2") test2 (server_get (text "/test1") test1 s)

  unfoldable pub main : M ℤ
  main = do s ← construct pf (text "0.0.0.0") (pos 4000); run pf (with_routes s)
