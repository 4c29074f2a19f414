-- ===== src/Tests/Routing.antt =====
-- Examples of the routes, the controllers and their middleware.
use easy_http.Prelude.{ℕ, List, [], ◌∷◌, some, true, ◌≡◌, refl}
use easy_http.Prelude.Int.{pos}
use easy_http.Bytes.{c_str, text, lex, same}
use easy_http.Outcome.{ok}
use easy_http.World.{pure}
use easy_http.RequestBase.{get, post}
use easy_http.RequestBase.Fields.{path, method_of_cmd}
use easy_http.Response.{of_request}
use easy_http.Middleware.{Handler, Layer, Chain, empty, node, to_handler, call_handler}
use easy_http.Middleware.Order.{wrap, layers, call_handler-eq-wrap}
use easy_http.Route.{Route, new_route, call_route}
use easy_http.Controller.{Controller, new_controller, handle_routes, call_controller}
use easy_http.Controller.Laws.{
  route, middleware, register_all, layers_of, routes_of, call_controller-register_all,
}
use easy_http.Server.{Server, request_handler}
use easy_http.Server.Target.{choose, find_first}
use easy_http.Server.Dispatch.{
  run_target, accepts, request_handler-choose, request_handler-controller,
}
use easy_http.Tests.{sample_platform, sample_world, sample_request}

abbrev answers : ℕ → Handler
answers code request = pure (of_request request.base (pos code))

-- A middleware that passes the request on, and one that refuses it.
abbrev passes : Layer
passes = record { kind = 1; handle = λ request next. next request }

abbrev refuses : Layer
refuses = record { kind = 2; handle = λ request next. answers 401 request }

abbrev two_layers : Chain
two_layers = node passes (to_handler (answers 200)) (node refuses (to_handler (answers 200)) empty)

call_handler-eq-wrap_example :
    call_handler
      (answers 404)
      passes
      (to_handler (answers 200))
      (node refuses (to_handler (answers 200)) empty)
    ≡ wrap (passes ∷ refuses ∷ []) (answers 200)
unfolding layers
call_handler-eq-wrap_example =
    call_handler-eq-wrap (answers 404) (answers 200) passes (to_handler (answers 200))
      (node refuses (to_handler (answers 200)) empty) (refl, (refl, tt))

abbrev slash_controller : Controller
slash_controller = record { url_prefix = text "/"; routes = []; middleware_chain = empty }

call_controller-register_all_example :
    call_controller sample_platform (
      register_all
        (route get (text "a") (answers 200)
          ∷ middleware passes
          ∷ route post (text "b") (answers 201)
          ∷ [])
        slash_controller)
    ≡ wrap (passes ∷ []) (
        handle_routes sample_platform
          (new_route get (text "/a") (answers 200) ∷ new_route post (text "/b") (answers 201) ∷ []))
unfolding layers_of routes_of new_controller
call_controller-register_all_example =
    call_controller-register_all sample_platform (text "/") slash_controller
      (route get (text "a") (answers 200)
        ∷ middleware passes
        ∷ route post (text "b") (answers 201)
        ∷ [])
      refl

-- A controller with the route that takes the sample request, behind one of another method.
abbrev two_routes : List Route
two_routes = new_route post (text "/a") (answers 201) ∷ new_route get (text "/a") (answers 200) ∷ []

abbrev sample_controller : Controller
sample_controller = record { url_prefix = text "/"; routes = two_routes; middleware_chain = empty }

abbrev sample_server : Server
sample_server = record {
  is_started = true;
  http_ip = text "0.0.0.0";
  http_port = 80;
  e_base = 1;
  e_http_server = 1;
  routes = new_route get (text "/b") (answers 202) ∷ [];
  controllers = sample_controller ∷ [];
}

sample_readable :
    path sample_platform sample_request.base sample_world ≡ (ok (text "/a"), sample_world)
unfolding path c_str
sample_readable = refl

request_handler-choose_example :
    request_handler sample_platform sample_server sample_request sample_world
    ≡ call_controller sample_platform sample_controller sample_request sample_world
unfolding choose find_first accepts run_target same lex new_route method_of_cmd
request_handler-choose_example =
    request_handler-choose sample_platform sample_server sample_request sample_world (text "/a")
      sample_readable ((λ e. cc), tt) (((λ e. cc), ((λ e. cc), tt)), tt)

request_handler-controller_example :
    (r : Route) × (find_first
        (accepts sample_platform sample_request sample_world (text "/a"))
        two_routes
      ≡ some r)
    × (request_handler sample_platform sample_server sample_request sample_world
        ≡ call_route r sample_request sample_world)
unfolding choose find_first accepts same lex new_route method_of_cmd
request_handler-controller_example =
    request_handler-controller sample_platform sample_server sample_request sample_world (text "/a")
      sample_readable ((λ e. cc), tt) (((λ e. cc), ((λ e. cc), tt)), tt) sample_controller refl refl
