-- ===== src/Examples/Users.antt =====
-- examples/server_controller/main.cpp: a server with one controller.
use easy_http.Prelude.Int.{ℤ, pos}
use easy_http.Bytes.{Bytes, text}
use easy_http.Outcome.{Outcome, ok, and_then}
use easy_http.World.{M, ◌>>=◌, lift}
use easy_http.World.External.{Platform}
use easy_http.Middleware.{Handler}
use easy_http.Controller.{Controller, new_controller, controller_get, controller_post}
use easy_http.Server.{register_controller}
use easy_http.Server.Lifecycle.{construct}
use easy_http.Examples.{answer, greeting, run}

module _ (pf : Platform) where
  unfoldable pub test1 : Handler
  test1 = answer pf 200 (text "Test1 callback")

  unfoldable pub test2 : Handler
  test2 request = answer pf 200 (greeting pf request) request

  -- MyController(url_prefix)
  unfoldable pub my_controller : Bytes → Outcome Controller
  my_controller url_prefix =
      and_then (new_controller url_prefix)
        (λ c. ok (controller_post (text "/test2") test2 (controller_get (text "/test1") test1 c)))

  unfoldable pub main : M ℤ
  main = do
    s ← construct pf (text "0.0.0.0") (pos 4000)
    c ← lift (my_controller (text "/users"))
    run pf (register_controller c s)
