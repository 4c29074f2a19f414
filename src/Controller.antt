-- ===== src/Controller.antt =====
-- `Controller` of include/easy_http/controller.h and src/controller.cpp.
pub mod Laws
use easy_http.Prelude.{ℕ, List, [], ◌∷◌, ◌++◌, Option, Bool, true, false, ◌==◌, if◌then◌else◌}
use easy_http.Prelude.Int.{pos}
use easy_http.Bytes.{Bytes, text}
use easy_http.Outcome.{Outcome, ok, throw, runtime_error}
use easy_http.World.{M, ◌>>=◌, ◌>>◌, pure}
use easy_http.World.External.{Platform}
use easy_http.RequestBase.{RequestMethod, get, post, put, delete, patch}
use easy_http.Request.{Request}
use easy_http.Response.{Response, of_request}
use easy_http.Middleware.{
  Handler, Layer, Chain, empty, node, to_controller, call_handler, append, find_kind,
}
use easy_http.Route.{Route, new_route, call_route, matches_request, is_route_match}

pub record Controller : Type 0 where
  pub url_prefix : Bytes
  pub routes : List Route
  pub middleware_chain : Chain

-- `url_prefix[0]`, which is NUL for the empty string
abbrev front : Bytes → ℕ
front [] = 0
front (c ∷ s) = c

-- Controller(url_prefix)
unfoldable pub new_controller : Bytes → Outcome Controller
new_controller url_prefix =
    if front url_prefix == b'/'
    then ok (record { url_prefix = url_prefix; routes = []; middleware_chain = empty })
    else throw (runtime_error (text "url prefix should be started with '/'"))

-- Get, Post, Put, Patch and Delete: the handler is a method bound to the controller.
unfoldable pub add_route : RequestMethod → Bytes → Handler → Controller → Controller
add_route method url handler self = record self {
  routes = self.routes ++ new_route method (self.url_prefix ++ url) handler ∷ [];
}

unfoldable pub controller_get : Bytes → Handler → Controller → Controller
unfolding add_route
controller_get url handler self = add_route get url handler self

unfoldable pub controller_post : Bytes → Handler → Controller → Controller
unfolding add_route
controller_post url handler self = add_route post url handler self

unfoldable pub controller_put : Bytes → Handler → Controller → Controller
unfolding add_route
controller_put url handler self = add_route put url handler self

unfoldable pub controller_patch : Bytes → Handler → Controller → Controller
unfolding add_route
controller_patch url handler self = add_route patch url handler self

unfoldable pub controller_delete : Bytes → Handler → Controller → Controller
unfolding add_route
controller_delete url handler self = add_route delete url handler self

-- AddMiddleware
unfoldable pub add_middleware : Layer → Controller → Controller
add_middleware m self = record self {
  middleware_chain = append m to_controller self.middleware_chain;
}

-- GetMiddlewareByType
unfoldable pub get_middleware : ℕ → Controller → Option Layer
get_middleware kind self = find_kind kind self.middleware_chain

module _ (pf : Platform) where
  -- The loop of Handle.
  unfoldable pub handle_routes : List Route → Handler
  handle_routes [] request = pure (of_request request.base (pos 404))
  handle_routes (r ∷ routes) request = do
    b ← matches_request pf r.url r.method request
    if b then call_route r request else handle_routes routes request

  -- Handle
  unfoldable pub handle : Controller → Handler
  handle self request = handle_routes self.routes request

  -- The loop of IsMatch.
  unfoldable pub any_match : List Route → Request → M Bool
  any_match [] request = pure false
  any_match (r ∷ routes) request = do
    b ← is_route_match pf r request
    if b then pure true else any_match routes request

  -- IsMatch
  unfoldable pub is_match : Controller → Request → M Bool
  is_match self request = any_match self.routes request

  abbrev pub through : Handler → Chain → Handler
  through self empty = self
  through self (node m last next) = call_handler self m last next

  -- CallHandler
  unfoldable pub call_controller : Controller → Handler
  call_controller self = through (handle self) self.middleware_chain
