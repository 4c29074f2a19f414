-- ===== src/Route/Laws.antt =====
-- What a route with middleware does with a request.
use easy_http.Prelude.{◌≡◌, refl, ap, ◌∙◌, sym, List, [], ◌∷◌, ◌++◌, append_assoc, append-nil}
use easy_http.Bytes.{Bytes}
use easy_http.RequestBase.{RequestMethod}
use easy_http.Middleware.{Handler, Layer, Chain, empty, node, to_handler}
use easy_http.Middleware.Order.{
  wrap, layers, EndsIn, layers-append, EndsIn-append, call_handler-eq-wrap,
}
use easy_http.Route.{Route, through, new_route, call_route, add_route_middleware}

-- AddMiddleware for each of the layers in turn.
unfoldable pub add_all : List Layer → Route → Route
add_all [] r = r
add_all (m ∷ ms) r = add_all ms (add_route_middleware m r)

-- The handler of the route is the end of its chain.
record IsWired (h : Handler) (r : Route) : Type 0 where
  handler : r.handler ≡ h
  chain : EndsIn h h r.middleware_chain

through_wired : (h g : Handler) (c : Chain) → g ≡ h → EndsIn h h c → through g c ≡ wrap (layers c) h
unfolding layers wrap
through_wired h g empty e k = e
through_wired h g (node m last next) e k = rw e (call_handler-eq-wrap h h m last next k)

call_wired :
    (h : Handler) (r : Route) → IsWired h r → call_route r ≡ wrap (layers r.middleware_chain) h
unfolding call_route
call_wired h r w = through_wired h r.handler r.middleware_chain w.handler w.chain

add_all-IsWired :
    (h : Handler) (ms : List Layer) (r : Route)
    → IsWired h r
    → IsWired h (add_all ms r)
      × (layers (add_all ms r).middleware_chain ≡ layers r.middleware_chain ++ ms)
unfolding add_all add_route_middleware
add_all-IsWired h [] r w = (w, sym (append-nil _))
add_all-IsWired h (m ∷ ms) r w =
    let added : IsWired h (add_route_middleware m r) = record {
      handler = w.handler;
      chain = EndsIn-append h h m (to_handler r.handler) r.middleware_chain w.handler w.chain;
    } in
    let (w', l) = add_all-IsWired h ms (add_route_middleware m r) added in
    (
      w',
      l
          ∙ ap (λ ls. ls ++ ms) (layers-append m (to_handler r.handler) r.middleware_chain)
          ∙ append_assoc (layers r.middleware_chain) _ _,
    )

-- A route to which middleware was added calls it in the order of the additions, each with the
-- rest as its `next`, and its own handler at the end.
call_route-add_all :
    (method : RequestMethod) (url : Bytes) (h : Handler) (ms : List Layer)
    → call_route (add_all ms (new_route method url h)) ≡ wrap ms h
unfolding new_route layers
call_route-add_all method url h ms =
    let w : IsWired h (new_route method url h) = record { handler = refl; chain = tt } in
    let (w', l) = add_all-IsWired h ms (new_route method url h) w in
    call_wired h (add_all ms (new_route method url h)) w' ∙ ap (λ ls. wrap ls h) l
