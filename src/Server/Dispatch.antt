-- ===== src/Server/Dispatch.antt =====
-- Which handler a request reaches.
use easy_http.Prelude.{
  ◌≡◌, ◌≢◌, refl, ap, ◌∙◌, arith, List, [], ◌∷◌, Option, none, some, Bool, true, false, All,
  if◌then◌else◌, Bool-cases, inl, inr,
}
use easy_http.Prelude.Int.{pos}
use easy_http.Bytes.{Bytes}
use easy_http.Outcome.{Outcome, ok}
use easy_http.World.{World, continue, pure}
use easy_http.World.External.{Platform, Matched, bad_pattern, no_match, matched}
use easy_http.RequestBase.Fields.{path, method, method_of_cmd}
use easy_http.RequestBase.Url.{url_is, is_url_match}
use easy_http.Request.{Request}
use easy_http.Response.{of_request}
use easy_http.Middleware.{Handler, empty}
use easy_http.Route.{Route, call_route, same_method, matches_request, is_route_match}
use easy_http.Controller.{Controller, handle_routes, handle, any_match, is_match, call_controller}
use easy_http.Server.{Server, try_controllers, try_routes, request_handler}
use easy_http.Server.Target.{
  Target, to_route, to_controller, not_found, find_first, is_found, controller_target, choose,
  find_first-holds, find_first-All, choose-controller, some_of_is_found,
}

abbrev pub is_matched : Matched → Bool
is_matched (matched gs) = true
is_matched _ = false

module _ (pf : Platform) where
  -- What the server does for a target.
  unfoldable pub run_target : Target → Handler
  run_target (to_route r) = call_route r
  run_target (to_controller c) = call_controller pf c
  run_target not_found = λ request. pure (of_request request.base (pos 404))

  abbrev routed : Option Route → Handler
  routed none = λ request. pure (of_request request.base (pos 404))
  routed (some r) = call_route r

  module _ (request : Request) (w : World) (p : Bytes) where
    -- The path matches the pattern of the route, and the methods are the same.
    unfoldable pub accepts : Route → Bool
    accepts r =
        if is_matched (pf.regex_match r.url p)
        then same_method (method_of_cmd (pf.request_command w.calls request.base.e_request))
            r.method
        else false

    -- The pattern of the route is a regular expression.
    abbrev pub IsLegal : Route → Type 0
    IsLegal r = pf.regex_match r.url p ≢ bad_pattern

    module _ (readable : path pf request.base w ≡ (ok p, w)) where
      is_match_legal :
          (x : Matched)
          → x ≢ bad_pattern
          → ◌≡◌ {A = Outcome Bool} (is_url_match x) (ok (is_matched x))
      is_match_legal bad_pattern h = absurd (h refl)
      is_match_legal no_match h = refl
      is_match_legal (matched gs) h = refl

      url_is_lem :
          (url : Bytes)
          → pf.regex_match url p ≢ bad_pattern
          → url_is pf request.base url w ≡ (ok (is_matched (pf.regex_match url p)), w)
      unfolding url_is
      url_is_lem url h =
          rw (readable, continue)
            (ap (λ (o : Outcome Bool). (o, w)) (is_match_legal (pf.regex_match url p) h))

      matches_request-accepts :
          (r : Route)
          → IsLegal r
          → matches_request pf r.url r.method request w ≡ (ok (accepts r), w)
      unfolding matches_request accepts method
      matches_request-accepts r h = rw (url_is_lem r.url h, continue) (ground arith)

      handle_routes-first :
          (routes : List Route)
          → All IsLegal routes
          → handle_routes pf routes request w ≡ routed (find_first accepts routes) request w
      unfolding handle_routes find_first
      handle_routes-first [] h = refl
      handle_routes-first (r ∷ routes) h =
          rw (matches_request-accepts r h.0, continue)
            (elim (Bool-cases (accepts r)) [
              | inl e ↦ rw e
              | inr e ↦ rw e (handle_routes-first routes h.1)
            ])

      any_match-first :
          (routes : List Route)
          → All IsLegal routes
          → any_match pf routes request w ≡ (ok (is_found (find_first accepts routes)), w)
      unfolding any_match find_first is_route_match
      any_match-first [] h = refl
      any_match-first (r ∷ routes) h =
          rw (matches_request-accepts r h.0, continue)
            (elim (Bool-cases (accepts r)) [
              | inl e ↦ rw e
              | inr e ↦ rw e (any_match-first routes h.1)
            ])

      try_controllers-choose :
          (controllers : List Controller)
          → All (λ c. All IsLegal c.routes) controllers
          → try_controllers pf controllers request w
            ≡ run_target
                (controller_target
                  (find_first (λ c. is_found (find_first accepts c.routes)) controllers))
                request
                w
      unfolding try_controllers find_first run_target is_match
      try_controllers-choose [] h = refl
      try_controllers-choose (c ∷ controllers) h =
          rw (any_match-first c.routes h.0, continue)
            (elim (Bool-cases (is_found (find_first accepts c.routes))) [
              | inl e ↦ rw e
              | inr e ↦ rw e (try_controllers-choose controllers h.1)
            ])

      try_routes-choose :
          (routes : List Route) (controllers : List Controller)
          → All IsLegal routes
          → All (λ c. All IsLegal c.routes) controllers
          → try_routes pf routes controllers request w
            ≡ run_target (choose accepts routes controllers) request w
      unfolding try_routes choose find_first is_route_match run_target
      try_routes-choose [] controllers h k = try_controllers-choose controllers k
      try_routes-choose (r ∷ routes) controllers h k =
          rw (matches_request-accepts r h.0, continue)
            (elim (Bool-cases (accepts r)) [
              | inl e ↦ rw e
              | inr e ↦ rw e (try_routes-choose routes controllers h.1 k)
            ])

module _ (pf : Platform) (s : Server) (request : Request) (w : World) (p : Bytes)
    (readable : path pf request.base w ≡ (ok p, w))
    (legal_routes : All (IsLegal pf request w p) s.routes)
    (legal_controllers : All (λ c. All (IsLegal pf request w p) c.routes) s.controllers) where
  -- A request goes to the first of the server's routes whose pattern matches the path and whose
  -- method is the request's; else to the first controller that has such a route, through its
  -- middleware; else it is answered with status 404 and nothing else is done. This supposes that
  -- the path can be read and that every pattern is a regular expression.
  pub request_handler-choose :
      request_handler pf s request w
      ≡ run_target pf (choose (accepts pf request w p) s.routes s.controllers) request w
  unfolding request_handler
  request_handler-choose =
      try_routes-choose pf request w p readable s.routes s.controllers legal_routes
        legal_controllers

  -- Under the same suppositions, a controller without middleware to which the request goes passes
  -- it to the first of its routes that accepts it: it never answers 404 by itself.
  pub request_handler-controller :
      (c : Controller)
      → choose (accepts pf request w p) s.routes s.controllers ≡ to_controller c
      → c.middleware_chain ≡ empty
      → (r : Route) × (find_first (accepts pf request w p) c.routes ≡ some r)
        × (request_handler pf s request w ≡ call_route r request w)
  unfolding run_target call_controller handle
  request_handler-controller c e m =
      let first = choose-controller (accepts pf request w p) s.routes s.controllers e in
      let (r, found) = some_of_is_found _ (find_first-holds _ s.controllers c first) in
      let legal =
        find_first-All (λ d. All (IsLegal pf request w p) d.routes) _ s.controllers c
          legal_controllers first in
      (
        r,
        found,
        request_handler-choose
            ∙ rw (e, run_target, m)
                (handle_routes-first pf request w p readable c.routes legal ∙ rw found),
      )
