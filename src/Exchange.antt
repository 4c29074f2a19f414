-- ===== src/Exchange.antt =====
-- A request from the client that sends it to the server that receives it: PushParam, SendAsync and the
-- constructors of src/request.cpp and src/request_base.cpp, on two sides of a connection.
pub mod Headers
pub mod Routing
use mathlib.Core.Path.{subst}
use easy_http.Prelude.{
  ℕ, ◌≡◌, refl, ap, ◌∙◌, List, [], ◌∷◌, none, some, Bool-cases, Option-cases, inl, inr, true, false,
  All,
}
use easy_http.Prelude.Int.{negsuc, eq_ℤ}
use easy_http.Bytes.{Bytes, c_str, is_empty}
use easy_http.Outcome.{Outcome, ok, throw, undefined}
use easy_http.ParamList.{ParamList}
use easy_http.ParamList.Laws.{IsSorted}
use easy_http.World.{World, ◌>>◌, continue, lift, new_container}
use easy_http.World.Calls.{
  Call, CmdType, uri_parse, uri_set_query, set_on_complete_cb, make_request,
}
use easy_http.World.External.{Platform}
use easy_http.Queries.{queries, render, parse_query}
use easy_http.Queries.Texts.{
  IsCodec, IsCText, IsParam, IsQueryText, IsQueryText-IsCText, c_str_whole,
}
use easy_http.Queries.RoundTrip.{encode_lem, parse_query-render}
use easy_http.RequestBase.{
  RequestMethod, get, collect_headers, request, received, of_received, of_received_from, headers,
}
use easy_http.RequestBase.Fields.{method, full_url, url_max, or_empty}
use easy_http.RequestBase.Methods.{method_of_cmd-cmd_of_method}
use easy_http.RequestBase.Send.{is_response, cmd_of_method, send_async}
use easy_http.Request.{Request, of_event, push_params, send_request_async}
use easy_http.Request.Params.{KeepsQuery}

module _ (client server : Platform) where
  -- What libevent documents of its URIs: the text of a URI has no NUL, and parsing it gives a URI
  -- with the same query, which setting a callback leaves as it is.
  pub record CarriesQuery : Type 0 where
    pub is_text :
        (calls : List Call) (uri : ℕ) (url : Bytes)
        → client.uri_join calls uri url_max ≡ some url
        → IsCText url
    pub parsed :
        (calls later : List Call) (uri : ℕ) (query url : Bytes)
        → client.uri_query calls uri ≡ some query
        → client.uri_join calls uri url_max ≡ some url
        → server.uri_query (uri_parse url true ∷ later) (server.pointer later (uri_parse url true))
          ≡ some query
    pub kept :
        (calls : List Call) (uri e_request con : ℕ)
        → server.uri_query (set_on_complete_cb e_request con ∷ calls) uri
          ≡ server.uri_query calls uri

  -- libevent hands a request over with the URL and the command that were sent.
  pub record Delivers (e_request : ℕ) (sent_cmd : CmdType) (sent_url : Bytes) : Type 0 where
    pub url : (calls : List Call) → server.request_uri calls e_request ≡ some sent_url
    pub command : (calls : List Call) → server.request_command calls e_request ≡ sent_cmd

  module _ (encoded : Bytes → Bytes) (writes : IsCodec client encoded)
      (reads : IsCodec server encoded) where
    render-same :
        (ps : ParamList)
        → All IsParam ps
        → (params_str : Bytes) → render client params_str ps ≡ render server params_str ps
    unfolding render
    render-same [] h params_str = refl
    render-same ((k, v) ∷ ps) h params_str =
        rw
          (
            encode_lem client encoded writes k (h.0).key_text,
            encode_lem client encoded writes v (h.0).value_text,
            encode_lem server encoded reads k (h.0).key_text,
            encode_lem server encoded reads v (h.0).value_text,
            render,
          )
          (render-same ps h.1 _)

    -- The query that the client writes is read by the server.
    rendered_parsed :
        (ps : ParamList)
        → IsSorted ps
        → All IsParam ps
        → (query : Bytes) × IsQueryText query
          × (render client [] ps ≡ ok query)
          × (parse_query server (some query) ≡ ok ps)
    rendered_parsed ps s h =
        let (query, is_query, rendered, _) = parse_query-render client encoded writes ps s h in
        let (other, _, also, parsed) = parse_query-render server encoded reads ps s h in
        let same : other ≡ query = cc (rendered, also, render-same ps h []) in
        (query, is_query, rendered, rw same at parsed)

  -- The world of a client that sent its request, from the world before.
  abbrev Sent : Request → World → Outcome (Unit {0}) × World → Type 0
  Sent self w (ok a, u) =
      u.calls
      ≡ make_request self.e_con self.base.e_request (cmd_of_method self.method)
          (c_str (or_empty (client.uri_join w.calls self.base.e_uri url_max)))
        ∷ w.calls
  Sent self w (throw e, u) = Unit
  Sent self w (undefined, u) = Unit

  send_request_async-Sent :
      (self : Request) (w : World)
      → self.base.request_type ≡ request
      → client.request_uri w.calls self.base.e_request ≡ none
      → Sent self w (send_request_async client self w)
  unfolding send_request_async send_async full_url
  send_request_async-Sent self w to_send unsent =
      let url = or_empty (client.uri_join w.calls self.base.e_uri url_max) in
      let sending =
        make_request self.e_con self.base.e_request (cmd_of_method self.method) (c_str url) in
      let may_send : is_response self.base.request_type ≡ false = ap is_response to_send in
      elim (Bool-cases (eq_ℤ (client.answer w.calls sending) (negsuc 0))) [
        | inl failed ↦ rw (may_send, unsent, continue, failed) tt
        | inr taken ↦ rw (may_send, unsent, continue, taken) refl
      ]

  -- The world after the constructor of a received request.
  abbrev received_world : ℕ → Bytes → World → World
  received_world e_request url v = record (new_container v).1 {
    calls = set_on_complete_cb e_request v.next_container ∷ uri_parse url true ∷ v.calls;
  }

  -- The server reads a query that its parser leads to.
  of_event-query :
      (query url : Bytes) (ps : ParamList) (m : RequestMethod) (e_request : ℕ) (v : World)
      → CarriesQuery
      → server.uri_query
          (uri_parse url true ∷ v.calls)
          (server.pointer v.calls (uri_parse url true))
        ≡ some query
      → parse_query server (some query) ≡ ok ps
      → Delivers e_request (cmd_of_method m) url
      → (r : Request) × (v' : World) × (of_event server e_request v ≡ (ok r, v'))
        × (r.base.queries ≡ ps)
        × (method server r.base v' ≡ (ok m, v'))
  unfolding of_event of_received of_received_from queries headers method
  of_event-query query url ps m e_request v carries read parsed delivers =
      let uri = server.pointer v.calls (uri_parse url true) in
      let kept =
        carries.kept (uri_parse url true ∷ v.calls) uri e_request v.next_container ∙ read in
      (
        record {
          base = received e_request uri v.next_container ps (
              collect_headers []
                (server.input_headers (received_world e_request url v).calls e_request));
          e_con = 0;
          method = get;
        },
        received_world e_request url v,
        rw (delivers.url v.calls, continue, kept, parsed),
        refl,
        rw (delivers.command, method_of_cmd-cmd_of_method m),
      )

  module _ (encoded : Bytes → Bytes) (writes : IsCodec client encoded)
      (reads : IsCodec server encoded) (keeps : KeepsQuery client) (carries : CarriesQuery) where
    -- If the client pushes a sorted map of parameters, whose texts hold no NUL and whose keys are neither
    -- empty nor marked as arrays, and its request is sent with a URL that is not empty, and libevent
    -- delivers what was sent, then the server makes a Request of it, whose queries are the map and whose
    -- method is that of the client's request.
    pub of_event-send_request_async :
        (self : Request) (ps : ParamList) (w u v : World) (before : List Call) (cmd : CmdType)
        (url : Bytes) (e_request : ℕ)
        → IsSorted ps
        → All IsParam ps
        → self.base.request_type ≡ request
        → ((calls : List Call) → client.request_uri calls self.base.e_request ≡ none)
        → (push_params client ps self >> send_request_async client self) w ≡ (ok tt, u)
        → u.calls ≡ make_request self.e_con self.base.e_request cmd url ∷ before
        → is_empty url ≡ false
        → Delivers e_request cmd url
        → (r : Request) × (v' : World) × (of_event server e_request v ≡ (ok r, v'))
          × (r.base.queries ≡ ps)
          × (method server r.base v' ≡ (ok self.method, v'))
    unfolding push_params c_str
    of_event-send_request_async self ps w u v before cmd url e_request s h to_send unsent sends
          on_wire some_url delivers =
        let (query, is_query, rendered, parsed) = rendered_parsed encoded writes reads ps s h in
        let whole = c_str_whole query (IsQueryText-IsCText query is_query) in
        let set = keeps.query_set w.calls self.base.e_uri query is_query in
        let pushed = record w { calls = uri_set_query self.base.e_uri query ∷ w.calls } in
        let sent : Sent self pushed (ok tt, u) =
          subst (Sent self pushed) (rw (rendered, lift, continue, whole) at sends)
            (send_request_async-Sent self pushed to_send (unsent pushed.calls)) in
        let same_cmd : cmd ≡ cmd_of_method self.method = cc (sent, on_wire) in
        let same_url : url
            ≡ c_str (or_empty (client.uri_join pushed.calls self.base.e_uri url_max)) =
          cc (sent, on_wire) in
        elim (Option-cases (client.uri_join pushed.calls self.base.e_uri url_max)) [
          | inl none_joined ↦
              let e : url ≡ [] = rw none_joined at same_url in cc (ap is_empty e, some_url)
          | inr (joined, j) ↦
              let text_whole =
                c_str_whole joined (carries.is_text pushed.calls self.base.e_uri joined j) in
              let url_joined : url ≡ joined = (rw j at same_url) ∙ text_whole in
              of_event-query query url ps self.method e_request v carries
                (rw url_joined
                  (carries.parsed pushed.calls v.calls self.base.e_uri query joined set j))
                parsed (rw same_cmd at delivers)
        ]
