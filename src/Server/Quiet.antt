-- ===== src/Server/Quiet.antt =====
-- Methods that make no calls of replies: all that the server does before it sends a response.
use easy_http.Prelude.{
  ℕ, ◌≡◌, refl, arith, Bool, false, List, [], ◌∷◌, Option, none, some, true, All, ◌==◌, Bool-cases,
  inl, inr,
}
use easy_http.World.{World, M}
use easy_http.Bytes.{Bytes, c_str}
use easy_http.RequestBase.Fields.{path, method as method_of}
use easy_http.RequestBase.Url.{url_is}
use easy_http.World.Count.{total, IsSilent, bind-IsSilent, pure-IsSilent, if-IsSilent}
use easy_http.World.Calls.{
  Call, send_reply, send_reply_start, send_reply_chunk, send_reply_end, timer_new, timer_add,
  event_free, free_state, uri_parse, set_on_complete_cb, add_header, uri_free,
}
use easy_http.World.External.{Platform}
use easy_http.ParamList.{ParamList}
use easy_http.RequestBase.{RequestBase, RequestMethod, of_received, of_received_from, release}
use easy_http.RequestBase.Headers.{push_header, push_headers}
use easy_http.Queries.{queries}
use easy_http.Request.{Request, of_event}
use easy_http.Middleware.{
  Handler, Layer, Chain, empty, node, Last, resolve, to_handler, to_controller, call_handler,
}
use easy_http.Route.{through as route_through, Route, call_route, matches_request, is_route_match}
use easy_http.Controller.{
  Controller, handle_routes, handle, any_match, is_match, call_controller, through,
}
use easy_http.Server.{Server, try_controllers, try_routes, release_response}

-- A call that belongs to a reply. All other calls are those of receiving and reading requests, of
-- headers and of contents.
abbrev pub is_reply_call : Call → Bool
is_reply_call (send_reply request code reason with_output) = true
is_reply_call (send_reply_start request code reason) = true
is_reply_call (send_reply_chunk request chunk) = true
is_reply_call (send_reply_end request) = true
is_reply_call (timer_new base request) = true
is_reply_call (timer_add timer usec) = true
is_reply_call (event_free event) = true
is_reply_call (free_state request) = true
is_reply_call _ = false

-- Only calls that belong to a reply are counted.
abbrev pub IsReplyCount : (Call → ℕ) → Type 0
IsReplyCount count = (c : Call) → is_reply_call c ≡ false → count c ≡ 0

-- The method makes none of the counted calls, however it ends.
abbrev pub IsQuiet : (Call → ℕ) → {A : Type 0} → M A → Type 0
IsQuiet count m = IsSilent count m

module _ (count : Call → ℕ) where
  abbrev pub IsQuietHandler : Handler → Type 0
  IsQuietHandler h = (request : Request) → IsQuiet count (h request)

  -- A middleware that makes none of the counted calls, if the handler that it gets as `next` makes none.
  abbrev pub IsQuietLayer : Layer → Type 0
  IsQuietLayer m =
      (request : Request) (next : Handler)
      → IsQuietHandler next
      → IsQuiet count (m.handle request next)

  abbrev pub IsQuietLast : Last → Type 0
  IsQuietLast (to_handler h) = IsQuietHandler h
  IsQuietLast to_controller = Unit

  abbrev pub IsQuietChain : Chain → Type 0
  IsQuietChain empty = Unit
  IsQuietChain (node m last next) = IsQuietLayer m × IsQuietLast last × IsQuietChain next

  abbrev pub IsQuietRoute : Route → Type 0
  IsQuietRoute r = IsQuietHandler r.handler × IsQuietChain r.middleware_chain

  abbrev pub IsQuietController : Controller → Type 0
  IsQuietController c = All IsQuietRoute c.routes × IsQuietChain c.middleware_chain

  abbrev pub IsQuietServer : Server → Type 0
  IsQuietServer s = All IsQuietRoute s.routes × All IsQuietController s.controllers

module _ (count : Call → ℕ) (quiet : IsReplyCount count) (pf : Platform) where
  pub release-total :
      (self : RequestBase) (w : World) → total count (release pf self w).calls ≡ total count w.calls
  unfolding total
  release-total self w = elim (Bool-cases (pf.is_kept self.cb_container)) [
    | inl e ↦ rw e refl
    | inr e ↦ rw e (omega (arith, quiet (uri_free self.e_uri) refl))
  ]

  pub release_response-total :
      (request response : RequestBase) (w : World)
      → total count (release_response pf request response w).calls ≡ total count w.calls
  release_response-total request response w =
      elim (Bool-cases (response.cb_container == request.cb_container)) [
        | inl e ↦ rw e refl
        | inr e ↦ rw e (release-total response w)
      ]

  pub queries-IsQuiet : (uri : ℕ) → IsQuiet count (queries pf uri)
  unfolding queries
  queries-IsQuiet uri = record { at = λ w. refl }

  of_received_from-IsQuiet :
      (e_request : ℕ) (url : Option Bytes) → IsQuiet count (of_received_from pf e_request url)
  unfolding of_received_from queries total
  of_received_from-IsQuiet e_request none = record { at = λ w. refl }
  of_received_from-IsQuiet e_request (some url) = record {
    at = λ w. ground (
      arith,
      quiet (uri_parse url true) refl,
      quiet (set_on_complete_cb e_request w.next_container) refl,
    );
  }

  of_received-IsQuiet : (e_request : ℕ) → IsQuiet count (of_received pf e_request)
  unfolding of_received
  of_received-IsQuiet e_request = record {
    at = λ w. (of_received_from-IsQuiet e_request (pf.request_uri w.calls e_request)).at w;
  }

  pub of_event-IsQuiet : (e_request : ℕ) → IsQuiet count (of_event pf e_request)
  unfolding of_event
  of_event-IsQuiet e_request =
      bind-IsSilent count _ _ (of_received-IsQuiet e_request) (λ base. pure-IsSilent count _)

  push_header-IsQuiet :
      (self : RequestBase) (key value : Bytes) → IsQuiet count (push_header pf self key value)
  unfolding push_header total
  push_header-IsQuiet self key value = record {
    at = λ w. ground (arith, quiet (add_header self.e_request (c_str key) (c_str value)) refl);
  }

  pub push_headers-IsQuiet :
      (self : RequestBase) (hs : ParamList) → IsQuiet count (push_headers pf self hs)
  unfolding push_headers
  push_headers-IsQuiet self [] = pure-IsSilent count tt
  push_headers-IsQuiet self ((key, value) ∷ hs) =
      bind-IsSilent count _ _ (push_header-IsQuiet self key value)
        (λ _. push_headers-IsQuiet self hs)

  matches_request-IsQuiet :
      (url : Bytes) (method : RequestMethod) (request : Request)
      → IsQuiet count (matches_request pf url method request)
  unfolding matches_request url_is path method_of
  matches_request-IsQuiet url method request = record { at = λ w. ground arith }

  resolve-IsQuietHandler :
      (self : Handler) (last : Last)
      → IsQuietHandler count self
      → IsQuietLast count last
      → IsQuietHandler count (resolve self last)
  resolve-IsQuietHandler self (to_handler h) q k = k
  resolve-IsQuietHandler self to_controller q k = q

  call_handler-IsQuietHandler :
      (self : Handler) (m : Layer) (last : Last) (next : Chain)
      → IsQuietHandler count self
      → IsQuietChain count (node m last next)
      → IsQuietHandler count (call_handler self m last next)
  unfolding call_handler
  call_handler-IsQuietHandler self m last empty q k request =
      k.0 request (resolve self last) (resolve-IsQuietHandler self last q k.1)
  call_handler-IsQuietHandler self m last (node m' last' next) q k request =
      k.0 request (call_handler self m' last' next)
        (call_handler-IsQuietHandler self m' last' next q k.2)

  route_through-IsQuietHandler :
      (h : Handler) (c : Chain)
      → IsQuietHandler count h
      → IsQuietChain count c
      → IsQuietHandler count (route_through h c)
  route_through-IsQuietHandler h empty q k = q
  route_through-IsQuietHandler h (node m last next) q k =
      call_handler-IsQuietHandler h m last next q k

  call_route-IsQuietHandler :
      (r : Route) → IsQuietRoute count r → IsQuietHandler count (call_route r)
  unfolding call_route
  call_route-IsQuietHandler r q = route_through-IsQuietHandler r.handler r.middleware_chain q.0 q.1

  handle_routes-IsQuietHandler :
      (routes : List Route)
      → All (IsQuietRoute count) routes
      → IsQuietHandler count (handle_routes pf routes)
  unfolding handle_routes
  handle_routes-IsQuietHandler [] q request = record { at = λ w. refl }
  handle_routes-IsQuietHandler (r ∷ routes) q request =
      bind-IsSilent count (matches_request pf r.url r.method request) _
        (matches_request-IsQuiet r.url r.method request)
        (λ b.
          if-IsSilent count b _ _ (call_route-IsQuietHandler r q.0 request)
            (handle_routes-IsQuietHandler routes q.1 request))

  through-IsQuietHandler :
      (h : Handler) (c : Chain)
      → IsQuietHandler count h
      → IsQuietChain count c
      → IsQuietHandler count (through pf h c)
  through-IsQuietHandler h empty q k = q
  through-IsQuietHandler h (node m last next) q k = call_handler-IsQuietHandler h m last next q k

  call_controller-IsQuietHandler :
      (c : Controller) → IsQuietController count c → IsQuietHandler count (call_controller pf c)
  unfolding call_controller handle
  call_controller-IsQuietHandler c q =
      through-IsQuietHandler (handle_routes pf c.routes) c.middleware_chain
        (handle_routes-IsQuietHandler c.routes q.0) q.1

  any_match-IsQuiet :
      (routes : List Route) (request : Request) → IsQuiet count (any_match pf routes request)
  unfolding any_match is_route_match
  any_match-IsQuiet [] request = record { at = λ w. refl }
  any_match-IsQuiet (r ∷ routes) request =
      bind-IsSilent count (matches_request pf r.url r.method request) _
        (matches_request-IsQuiet r.url r.method request)
        (λ b. if-IsSilent count b _ _ (pure-IsSilent count true) (any_match-IsQuiet routes request))

  try_controllers-IsQuietHandler :
      (controllers : List Controller)
      → All (IsQuietController count) controllers
      → IsQuietHandler count (try_controllers pf controllers)
  unfolding try_controllers is_match
  try_controllers-IsQuietHandler [] q request = record { at = λ w. refl }
  try_controllers-IsQuietHandler (c ∷ controllers) q request =
      bind-IsSilent count (any_match pf c.routes request) _ (any_match-IsQuiet c.routes request)
        (λ b.
          if-IsSilent count b _ _ (call_controller-IsQuietHandler c q.0 request)
            (try_controllers-IsQuietHandler controllers q.1 request))

  pub try_routes-IsQuietHandler :
      (routes : List Route) (controllers : List Controller)
      → All (IsQuietRoute count) routes
      → All (IsQuietController count) controllers
      → IsQuietHandler count (try_routes pf routes controllers)
  unfolding try_routes is_route_match
  try_routes-IsQuietHandler [] controllers q k request =
      try_controllers-IsQuietHandler controllers k request
  try_routes-IsQuietHandler (r ∷ routes) controllers q k request =
      bind-IsSilent count (matches_request pf r.url r.method request) _
        (matches_request-IsQuiet r.url r.method request)
        (λ b.
          if-IsSilent count b _ _ (call_route-IsQuietHandler r q.0 request)
            (try_routes-IsQuietHandler routes controllers q.1 k request))
