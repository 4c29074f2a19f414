-- ===== src/Route.antt =====
-- `Route` of include/easy_http/route.h and src/route.cpp.
pub mod Laws
use easy_http.Prelude.{ℕ, Option, Bool, true, false, ◌==◌, if◌then◌else◌}
use easy_http.Bytes.{Bytes}
use easy_http.World.{M, ◌>>=◌, ◌>>◌, pure}
use easy_http.World.External.{Platform}
use easy_http.RequestBase.{
  RequestMethod, get, post, head, put, delete, options, trace, connect, patch,
}
use easy_http.RequestBase.Fields.{method}
use easy_http.RequestBase.Url.{url_is}
use easy_http.Request.{Request}
use easy_http.Response.{Response}
use easy_http.Middleware.{
  Handler, Layer, Chain, empty, node, to_handler, call_handler, append, find_kind,
}

pub record Route : Type 0 where
  pub url : Bytes
  pub method : RequestMethod
  pub handler : Handler
  pub middleware_chain : Chain

-- The private constructor, and Route::Get, Post, Put, Patch and Delete.
unfoldable pub new_route : RequestMethod → Bytes → Handler → Route
new_route method url handler = record {
  url = url;
  method = method;
  handler = handler;
  middleware_chain = empty;
}

unfoldable pub route_get : Bytes → Handler → Route
unfolding new_route
route_get url handler = new_route get url handler

unfoldable pub route_post : Bytes → Handler → Route
unfolding new_route
route_post url handler = new_route post url handler

unfoldable pub route_put : Bytes → Handler → Route
unfolding new_route
route_put url handler = new_route put url handler

unfoldable pub route_patch : Bytes → Handler → Route
unfolding new_route
route_patch url handler = new_route patch url handler

unfoldable pub route_delete : Bytes → Handler → Route
unfolding new_route
route_delete url handler = new_route delete url handler

-- `if (middleware_chain_) … else …`; no `last_` of a route's chain refers to a controller.
abbrev pub through : Handler → Chain → Handler
through handler empty = handler
through handler (node m last next) = call_handler handler m last next

-- CallHandler
unfoldable pub call_route : Route → Handler
call_route self = through self.handler self.middleware_chain

-- AddMiddleware
unfoldable pub add_route_middleware : Layer → Route → Route
add_route_middleware m self = record self {
  middleware_chain = append m (to_handler self.handler) self.middleware_chain;
}

-- GetMiddlewareByType
unfoldable pub get_route_middleware : ℕ → Route → Option Layer
get_route_middleware kind self = find_kind kind self.middleware_chain

-- The place of a method in the enumeration.
abbrev pub method_index : RequestMethod → ℕ
method_index get = 0
method_index post = 1
method_index head = 2
method_index put = 3
method_index delete = 4
method_index options = 5
method_index trace = 6
method_index connect = 7
method_index patch = 8

abbrev pub same_method : RequestMethod → RequestMethod → Bool
same_method a b = method_index a == method_index b

module _ (pf : Platform) where
  -- `request.UrlIs(url) && request.Method() == method`
  unfoldable pub matches_request : Bytes → RequestMethod → Request → M Bool
  matches_request url m request = do
    b ← url_is pf request.base url
    if b then (do m' ← method pf request.base; pure (same_method m' m)) else pure false

  -- IsMatch
  unfoldable pub is_route_match : Route → Request → M Bool
  is_route_match self request = matches_request self.url self.method request
