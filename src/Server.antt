-- ===== src/Server.antt =====
-- `Server` of include/easy_http/server.h and src/server.cpp: the tables of routes and controllers,
-- and the handling of a request.
pub mod Target
pub mod Dispatch
pub mod Answers
pub mod NotFound
pub mod Quiet
pub mod Replies
pub mod Tables
pub mod Lifecycle
pub mod Loop
pub mod Streams
use easy_http.Prelude.{
  ℕ, ◌%◌, ◌^◌, List, [], ◌∷◌, ◌++◌, Option, none, some, Bool, true, false, if◌then◌else◌, ◌==◌,
}
use easy_http.Prelude.Int.{ℤ, pos, to_uint16}
use easy_http.Bytes.{Bytes, text, same}
use easy_http.World.{World, M, ◌>>=◌, ◌>>◌, pure, emit, catch_std, finally}
use easy_http.World.Calls.{send_reply, print_crash}
use easy_http.World.External.{Platform}
use easy_http.RequestBase.{RequestBase, release}
use easy_http.RequestBase.Reply.{ChunkState}
use easy_http.Request.{Request, of_event}
use easy_http.Response.{Response, of_request, send}
use easy_http.Middleware.{Handler}
use easy_http.Route.{
  Route, route_get, route_post, route_put, route_patch, route_delete, call_route, is_route_match,
}
use easy_http.Controller.{Controller, is_match, call_controller}

pub record Server : Type 0 where
  pub is_started : Bool
  pub http_ip : Bytes
  pub http_port : ℕ
  pub e_base : ℕ
  pub e_http_server : ℕ
  pub routes : List Route
  pub controllers : List Controller

-- Server(ip, port); the port is kept in a `uint16_t`.
unfoldable pub new_server : Bytes → ℤ → Server
new_server ip port = record {
  is_started = false;
  http_ip = ip;
  http_port = to_uint16 port;
  e_base = 0;
  e_http_server = 0;
  routes = [];
  controllers = [];
}

unfoldable pub push_route : Route → Server → Server
push_route r self = record self { routes = self.routes ++ r ∷ [] }

-- Get, Post, Put, Patch and Delete
unfoldable pub server_get : Bytes → Handler → Server → Server
unfolding push_route route_get
server_get url handler self = push_route (route_get url handler) self

unfoldable pub server_post : Bytes → Handler → Server → Server
unfolding push_route route_post
server_post url handler self = push_route (route_post url handler) self

unfoldable pub server_put : Bytes → Handler → Server → Server
unfolding push_route route_put
server_put url handler self = push_route (route_put url handler) self

unfoldable pub server_patch : Bytes → Handler → Server → Server
unfolding push_route route_patch
server_patch url handler self = push_route (route_patch url handler) self

unfoldable pub server_delete : Bytes → Handler → Server → Server
unfolding push_route route_delete
server_delete url handler self = push_route (route_delete url handler) self

unfoldable pub register_controller : Controller → Server → Server
register_controller c self = record self { controllers = self.controllers ++ c ∷ [] }

-- The loop of GetController; `none` is nullptr.
unfoldable pub find_controller : Bytes → List Controller → Option Controller
find_controller url_prefix [] = none
find_controller url_prefix (c ∷ controllers) =
    if same c.url_prefix url_prefix then some c else find_controller url_prefix controllers

unfoldable pub get_controller : Bytes → Server → Option Controller
get_controller url_prefix self = find_controller url_prefix self.controllers

module _ (pf : Platform) where
  -- The second loop of RequestHandler(request).
  unfoldable pub try_controllers : List Controller → Handler
  try_controllers [] request = pure (of_request request.base (pos 404))
  try_controllers (c ∷ controllers) request = do
    b ← is_match pf c request
    if b then call_controller pf c request else try_controllers controllers request

  -- The first loop of RequestHandler(request).
  unfoldable pub try_routes : List Route → List Controller → Handler
  try_routes [] controllers request = try_controllers controllers request
  try_routes (r ∷ routes) controllers request = do
    b ← is_route_match pf r request
    if b then call_route r request else try_routes routes controllers request

  -- RequestHandler(request)
  unfoldable pub request_handler : Server → Handler
  request_handler self request = try_routes self.routes self.controllers request

  -- What the static RequestHandler does when a std::exception reaches it.
  unfoldable pub on_crash : ℕ → M (Option ChunkState)
  on_crash e_request = do
    emit (print_crash e_request)
    emit (send_reply e_request (pos 500) (text "ok") false)
    pure none

  -- The destructor of the response, which shares its URI with the request that it is made of.
  abbrev pub release_response : RequestBase → RequestBase → World → World
  release_response request response w =
      if response.cb_container == request.cb_container then w else release pf response w

  -- The body of its `try`, and the destructors of its two objects.
  unfoldable pub serve : Server → ℕ → M (Option ChunkState)
  serve self e_request = do
    request ← of_event pf e_request
    finally (release pf request.base) (do
      response ← request_handler self request
      finally (release_response request.base response.base) (send pf response))

  -- The static RequestHandler(evhttp_request*, server), which libevent calls. The value is the state
  -- of a chunked reply that goes on.
  unfoldable pub on_request : Server → ℕ → M (Option ChunkState)
  on_request self e_request = catch_std (serve self e_request) (on_crash e_request)
