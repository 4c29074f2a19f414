-- ===== src/Controller/Laws.antt =====
-- What a controller does with a request after any sequence of registrations.
use easy_http.Prelude.{
  ◌≡◌, refl, arith, ap, ◌∙◌, sym, List, [], ◌∷◌, ◌++◌, append_assoc, append-nil,
}
use easy_http.Bytes.{Bytes}
use easy_http.Outcome.{ok}
use easy_http.RequestBase.{RequestMethod}
use easy_http.World.External.{Platform}
use easy_http.Middleware.{Handler, Layer, Chain, empty, node, to_controller}
use easy_http.Middleware.Order.{
  wrap, layers, EndsIn, layers-append, EndsIn-append, call_handler-eq-wrap,
}
use easy_http.Route.{Route, new_route}
use easy_http.Controller.{
  Controller, new_controller, add_route, add_middleware, handle_routes, handle, through,
  call_controller,
}

-- What the constructor of a derived class does: it adds routes and middleware.
pub data Registration : Type 0 where
  route : RequestMethod → Bytes → Handler → Registration
  middleware : Layer → Registration

abbrev register : Registration → Controller → Controller
register (route method url h) c = add_route method url h c
register (middleware m) c = add_middleware m c

unfoldable pub register_all : List Registration → Controller → Controller
register_all [] c = c
register_all (g ∷ gs) c = register_all gs (register g c)

-- The middleware and the routes of the registrations, in their order.
unfoldable pub layers_of : List Registration → List Layer
layers_of [] = []
layers_of (middleware m ∷ gs) = m ∷ layers_of gs
layers_of (route method url h ∷ gs) = layers_of gs

unfoldable pub routes_of : Bytes → List Registration → List Route
routes_of url_prefix [] = []
routes_of url_prefix (middleware m ∷ gs) = routes_of url_prefix gs
routes_of url_prefix (route method url h ∷ gs) =
    new_route method (url_prefix ++ url) h ∷ routes_of url_prefix gs

-- The controller's chain calls the controller itself at its end.
abbrev IsWired : Controller → Type 0
IsWired c = (h : Handler) → EndsIn h h c.middleware_chain

register_all-IsWired :
    (gs : List Registration) (c : Controller)
    → IsWired c
    → IsWired (register_all gs c)
      × ((register_all gs c).routes ≡ c.routes ++ routes_of c.url_prefix gs)
      × (layers (register_all gs c).middleware_chain ≡ layers c.middleware_chain ++ layers_of gs)
unfolding register_all add_route add_middleware layers_of routes_of
register_all-IsWired [] c w = (w, sym (append-nil _), sym (append-nil _))
register_all-IsWired (route method url h ∷ gs) c w =
    let (w', rs, ls) = register_all-IsWired gs (add_route method url h c) w in
    (w', rs ∙ append_assoc c.routes _ _, ls)
register_all-IsWired (middleware m ∷ gs) c w =
    let (w', rs, ls) =
      register_all-IsWired gs (add_middleware m c)
        (λ h. EndsIn-append h h m to_controller c.middleware_chain refl (w h)) in
    (
      w',
      rs,
      ls
          ∙ ap (λ l. l ++ layers_of gs) (layers-append m to_controller c.middleware_chain)
          ∙ append_assoc (layers c.middleware_chain) _ _,
    )

fresh_controller :
    (url_prefix : Bytes) {c : Controller}
    → new_controller url_prefix ≡ ok c
    → (c.url_prefix ≡ url_prefix) × (c.routes ≡ []) × (c.middleware_chain ≡ empty)
unfolding new_controller
fresh_controller url_prefix e = ground arith

module _ (pf : Platform) where
  through_wired : (h : Handler) (c : Chain) → EndsIn h h c → through pf h c ≡ wrap (layers c) h
  unfolding layers wrap
  through_wired h empty k = refl
  through_wired h (node m last next) k = call_handler-eq-wrap h h m last next k

  -- A controller made with a prefix and then given routes and middleware, in any interleaving, runs
  -- the middleware in its order round the choice among all its routes, those added after the
  -- middleware included; and each of its routes has the prefix in front.
  pub call_controller-register_all :
      (url_prefix : Bytes) (c : Controller) (gs : List Registration)
      → new_controller url_prefix ≡ ok c
      → call_controller pf (register_all gs c)
        ≡ wrap (layers_of gs) (handle_routes pf (routes_of url_prefix gs))
  unfolding call_controller handle layers
  call_controller-register_all url_prefix c gs e =
      let (p, r, m) = fresh_controller url_prefix e in
      let (w, rs, ls) = register_all-IsWired gs c (λ h. rw m tt) in
      let all_routes : (register_all gs c).routes ≡ routes_of url_prefix gs = rs ∙ rw (r, p) in
      let all_layers : layers (register_all gs c).middleware_chain ≡ layers_of gs = ls ∙ rw m in
      through_wired (handle pf (register_all gs c)) _ (w _)
      ∙ rw all_layers (ap (λ l. wrap (layers_of gs) (handle_routes pf l)) all_routes)
