-- ===== src/Examples/Authentication.antt =====
-- examples/server_middleware/main.cpp: a server with one controller behind a middleware that asks for
-- a token.
pub mod Access
use easy_http.Prelude.{ℕ, [], Option, none, some, Bool, if◌then◌else◌}
use easy_http.Prelude.Int.{ℤ, pos}
use easy_http.Bytes.{Bytes, text, same}
use easy_http.Outcome.{Outcome, ok, and_then}
use easy_http.World.{M, ◌>>=◌, lift, undefined_behaviour}
use easy_http.World.External.{Platform}
use easy_http.Values.{string}
use easy_http.RequestBase.Headers.{header}
use easy_http.Request.{Request}
use easy_http.Middleware.{Handler, Layer, Chain, empty, to_controller, append, find_kind}
use easy_http.Controller.{
  Controller, new_controller, controller_get, controller_post, add_middleware,
}
use easy_http.Server.{Server, register_controller}
use easy_http.Server.Lifecycle.{construct}
use easy_http.Examples.{answer, greeting, run}

-- The type AuthenticateMiddleware.
abbrev pub authenticate_kind : ℕ
authenticate_kind = 1

module _ (pf : Platform) where
  -- `request.Header<string>("Authorization") == token_`
  unfoldable pub has_token : Bytes → Request → Bool
  has_token token request = same (header pf string request.base (text "Authorization") []) token

  unfoldable pub refuse : Handler
  refuse = answer pf 401 (text "authentication failed")

  -- AuthenticateMiddleware(token)
  unfoldable pub authenticate : Bytes → Layer
  authenticate token = record {
    kind = authenticate_kind;
    handle = λ request next. if has_token token request then next request else refuse request;
  }

  unfoldable pub test1 : Handler
  test1 = answer pf 200 (text "Test1 callback")

  -- Test2 of the controller with the given chain: it reads the token of the middleware, to print it,
  -- through a pointer that is not tested.
  unfoldable pub test2 : Chain → Handler
  test2 chain request = elim (find_kind authenticate_kind chain) [
    | none ↦ undefined_behaviour
    | some m ↦ answer pf 200 (greeting pf request) request
  ]

  -- The chain of the controller once it is made.
  unfoldable pub chain_of : Bytes → Chain
  unfolding authenticate append
  chain_of token = append (authenticate token) to_controller empty

  -- MyController(url_prefix)
  unfoldable pub my_controller : Bytes → Outcome Controller
  my_controller url_prefix = and_then (new_controller url_prefix) (λ c. ok (
      add_middleware (authenticate (text "AbCd@1234")) (
        controller_post (text "/test2") (test2 (chain_of (text "AbCd@1234")))
          (controller_get (text "/test1") test1 c))))

  unfoldable pub main : M ℤ
  main = do
    s ← construct pf (text "0.0.0.0") (pos 4000)
    c ← lift (my_controller (text "/users"))
    run pf (register_controller c s)
