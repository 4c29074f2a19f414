-- ===== src/Examples/Authentication/Access.antt =====
-- Who reaches the handlers of the example.
use mathlib.Core.Path.{subst}
use easy_http.Prelude.{
  ◌≡◌, ◌≢◌, refl, sym, ◌∙◌, arith, List, [], ◌∷◌, if◌then◌else◌, Bool-cases, inl, inr,
}
use easy_http.Prelude.Int.{ℤ, pos}
use easy_http.Bytes.{Bytes, text, same}
use easy_http.Outcome.{Outcome, ok}
use easy_http.World.{World, pure, ◌>>◌}
use easy_http.RequestBase.Content.{set_content}
use easy_http.World.External.{Platform, bad_pattern}
use easy_http.RequestBase.{get, post}
use easy_http.RequestBase.Fields.{path}
use easy_http.Values.{string}
use easy_http.RequestBase.Headers.{header}
use easy_http.Request.{Request}
use easy_http.Response.{of_request}
use easy_http.Middleware.{call_handler, find_kind}
use easy_http.Route.{Route, new_route}
use easy_http.Controller.{
  Controller, new_controller, handle_routes, handle, call_controller, add_middleware,
  controller_get, controller_post,
}
use easy_http.Server.{new_server, register_controller, request_handler}
use easy_http.Server.Target.{to_controller, not_found, choose_one, choose, find_first, is_found}
use easy_http.Server.Dispatch.{accepts, run_target, request_handler-choose}
use easy_http.Examples.{answer, greeting}
use easy_http.Examples.Authentication.{has_token, refuse, test1, test2, chain_of, my_controller}

ok_injective : {A : Type 0} {a b : A} → ◌≡◌ {A = Outcome A} (ok a) (ok b) → a ≡ b
ok_injective e = ground arith

module _ (pf : Platform) where
  abbrev pub token : Bytes
  token = text "AbCd@1234"

  -- The routes of the controller under "/users".
  unfoldable pub users_routes : List Route
  users_routes =
      new_route get (text "/users/test1") (test1 pf)
      ∷ new_route post (text "/users/test2") (test2 pf (chain_of pf token))
      ∷ []

  unfoldable pub users : Controller
  users = record {
    url_prefix = text "/users";
    routes = users_routes;
    middleware_chain = chain_of pf token;
  }

  my_controller-users : my_controller pf (text "/users") ≡ ok users
  unfolding my_controller new_controller users users_routes chain_of add_middleware controller_post
      controller_get
  my_controller-users = refl

  module _ (request : Request) (w : World) where
    call_controller-users : call_controller pf users request w ≡ (
        if has_token pf token request
        then handle_routes pf users_routes request w
        else (do
          set_content pf (of_request request.base (pos 401)).base (text "authentication failed")
          pure (of_request request.base (pos 401)))
            w)
    unfolding call_controller users chain_of call_handler handle refuse answer
    call_controller-users = elim (Bool-cases (has_token pf token request)) [
      | inl e ↦ rw e
      | inr e ↦ rw e
    ]

  module _ (c : Controller) (made : my_controller pf (text "/users") ≡ ok c) where
    users_eq : users ≡ c
    users_eq = ok_injective (sym my_controller-users ∙ made)

    -- Test2 finds the middleware by its type in the chain of the controller, so that the pointer that
    -- it does not test is never NULL: it answers with status 200 and the greeting.
    test2-my_controller :
        (request : Request)
        → test2 pf c.middleware_chain request ≡ answer pf 200 (greeting pf request) request
    unfolding test2 find_kind
    test2-my_controller request =
        subst
          (λ (d : Controller).
            test2 pf d.middleware_chain request ≡ answer pf 200 (greeting pf request) request)
          users_eq (unfold users chain_of in refl)

    module _ (ip : Bytes) (port : ℤ) (request : Request) (w : World) (p : Bytes)
        (readable : path pf request.base w ≡ (ok p, w))
        (legal1 : pf.regex_match (text "/users/test1") p ≢ bad_pattern)
        (legal2 : pf.regex_match (text "/users/test2") p ≢ bad_pattern) where
      handled_users :
          request_handler pf (register_controller users (new_server ip port)) request w
          ≡ run_target pf (choose (accepts pf request w p) [] (users ∷ [])) request w
      unfolding register_controller new_server users users_routes new_route
      handled_users =
          request_handler-choose pf (register_controller users (new_server ip port)) request w p
            readable tt ((legal1, (legal2, tt)), tt)

      run_users :
          run_target pf
            (if is_found (find_first (accepts pf request w p) users_routes)
              then to_controller users
              else not_found)
            request
            w
          ≡ (if is_found (find_first (accepts pf request w p) users_routes)
              then (if same (header pf string request.base (text "Authorization") []) token
                  then handle_routes pf users_routes request w
                  else (do
                    set_content pf
                        (of_request request.base (pos 401)).base
                        (text "authentication failed")
                    pure (of_request request.base (pos 401)))
                      w)
              else pure (of_request request.base (pos 404)) w)
      unfolding run_target has_token
      run_users = elim (Bool-cases (is_found (find_first (accepts pf request w p) users_routes))) [
        | inl e ↦ rw e (call_controller-users request w)
        | inr e ↦ rw e
      ]

      -- The server of the example: a request that no route of the controller accepts is answered with
      -- status 404; one that a route accepts is handled by the routes if its header Authorization is
      -- the token, and else answered with status 401 and
      -- the text "authentication failed", and no handler of the controller is called.
      pub request_handler-my_controller :
          request_handler pf (register_controller c (new_server ip port)) request w ≡ (
            if is_found (find_first (accepts pf request w p) users_routes)
            then (if same (header pf string request.base (text "Authorization") []) token
                then handle_routes pf users_routes request w
                else (do
                  set_content pf
                      (of_request request.base (pos 401)).base
                      (text "authentication failed")
                  pure (of_request request.base (pos 401)))
                    w)
            else pure (of_request request.base (pos 404)) w)
      unfolding users
      request_handler-my_controller =
          subst
            (λ (d : Controller).
              request_handler pf (register_controller d (new_server ip port)) request w ≡ (
                if is_found (find_first (accepts pf request w p) users_routes)
                then (if same (header pf string request.base (text "Authorization") []) token
                    then handle_routes pf users_routes request w
                    else (do
                      set_content pf (of_request request.base (pos 401)).base
                          (text "authentication failed")
                      pure (of_request request.base (pos 401)))
                        w)
                else pure (of_request request.base (pos 404)) w))
            users_eq (handled_users ∙ rw (choose_one (accepts pf request w p) users) run_users)
