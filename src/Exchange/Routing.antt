-- ===== src/Exchange/Routing.antt =====
-- A request from the client, up to the handler that it reaches on the server.
use easy_http.Prelude.{ℕ, ◌≡◌, ap, List, ◌∷◌, none, Bool, false, All, ◌≢◌, if◌then◌else◌}
use easy_http.Bytes.{Bytes, is_empty}
use easy_http.Outcome.{ok}
use easy_http.ParamList.{ParamList}
use easy_http.ParamList.Laws.{IsSorted}
use easy_http.World.{World, ◌>>◌}
use easy_http.World.Calls.{Call, CmdType, make_request}
use easy_http.World.External.{Platform, bad_pattern}
use easy_http.Queries.Texts.{IsCodec, IsParam}
use easy_http.RequestBase.{RequestMethod, request}
use easy_http.RequestBase.Fields.{path, method, method_of_cmd}
use easy_http.Request.{Request, of_event, push_params, send_request_async}
use easy_http.Request.Params.{KeepsQuery}
use easy_http.Route.{Route, same_method}
use easy_http.Server.{Server, request_handler}
use easy_http.Server.Target.{choose}
use easy_http.Server.Dispatch.{is_matched, run_target, accepts, request_handler-choose}
use easy_http.Exchange.{CarriesQuery, Delivers, of_event-send_request_async}

-- The path matches the pattern of the route, and the route is of the method.
abbrev pub takes : Platform → Bytes → RequestMethod → Route → Bool
takes server p m r =
    if is_matched (server.regex_match r.url p) then same_method m r.method else false

accepts-takes :
    (server : Platform) (r : Request) (v : World) (p : Bytes) (m : RequestMethod)
    → method server r.base v ≡ (ok m, v)
    → accepts server r v p ≡ takes server p m
unfolding accepts method
accepts-takes server r v p m e =
    let same : method_of_cmd (server.request_command v.calls r.base.e_request) ≡ m = cc (e) in
    ap
      (λ x. λ route.
        if is_matched (server.regex_match route.url p) then same_method x route.method else false)
      same

module _ (client server : Platform) (encoded : Bytes → Bytes) (writes : IsCodec client encoded)
    (reads : IsCodec server encoded) (keeps : KeepsQuery client)
    (carries : CarriesQuery client server) where
  -- If the client pushes a sorted map of parameters, whose texts hold no NUL and whose keys are neither
  -- empty nor marked as arrays, and its request is sent with a URL that is not empty, and libevent
  -- delivers what was sent, then the server makes a Request of it, whose queries are the map; and if
  -- its path is p and every pattern is a regular expression, RequestHandler runs the first of the
  -- server's routes whose pattern matches p and whose method is that of the client's request, else the
  -- first controller that has such a route, and else it answers with status 404.
  pub request_handler-send_request_async :
      (self : Request) (ps : ParamList) (w u v : World) (before : List Call) (cmd : CmdType)
      (url p : Bytes) (e_request : ℕ) (s : Server)
      → IsSorted ps
      → All IsParam ps
      → self.base.request_type ≡ request
      → ((calls : List Call) → client.request_uri calls self.base.e_request ≡ none)
      → (push_params client ps self >> send_request_async client self) w ≡ (ok tt, u)
      → u.calls ≡ make_request self.e_con self.base.e_request cmd url ∷ before
      → is_empty url ≡ false
      → Delivers client server e_request cmd url
      → ((r : Request) (v' : World)
          → of_event server e_request v ≡ (ok r, v')
          → path server r.base v' ≡ (ok p, v'))
      → All (λ r. server.regex_match r.url p ≢ bad_pattern) s.routes
      → All (λ c. All (λ r. server.regex_match r.url p ≢ bad_pattern) c.routes) s.controllers
      → (r : Request) × (v' : World) × (of_event server e_request v ≡ (ok r, v'))
        × (r.base.queries ≡ ps)
        × (request_handler server s r v'
            ≡ run_target server (choose (takes server p self.method) s.routes s.controllers) r v')
  request_handler-send_request_async self ps w u v before cmd url p e_request s sorted params
        to_send unsent sends on_wire some_url delivers readable legal_routes legal_controllers =
      let (r, v', made, same_queries, same_method) =
        of_event-send_request_async client server encoded writes reads keeps carries self ps w u v
          before cmd url e_request sorted params to_send unsent sends on_wire some_url delivers in
      (
        r,
        v',
        made,
        same_queries,
        rw⁻¹ (accepts-takes server r v' p self.method same_method) (
            request_handler-choose server s r v' p (readable r v' made) legal_routes
              legal_controllers),
      )
