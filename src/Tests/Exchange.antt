-- ===== src/Tests/Exchange.antt =====
-- Examples of requests and headers from one side to the other.
use easy_http.Prelude.{
  ℕ, List, [], ◌∷◌, Option, none, some, true, ◌≡◌, refl, arith, Bool-cases, inl, inr, ◌==◌, ◌++◌,
}
use easy_http.Bytes.{Bytes, same, lex, text, c_str}
use easy_http.Outcome.{ok}
use easy_http.ParamList.{ParamList}
use easy_http.World.{World, ◌>>◌, pure}
use easy_http.World.Calls.{Call, uri_parse, uri_set_query, make_request, req_get}
use easy_http.World.External.{Platform}
use easy_http.Queries.{queries, parse_query, is_array, encode, render}
use easy_http.Queries.Texts.{IsCodec, IsCText, IsParam, IsQueryText-IsCText, c_str_whole}
use easy_http.RequestBase.{
  RequestBase, post, get, request, received, of_received, of_received_from, headers,
  collect_headers,
}
use easy_http.RequestBase.Headers.{header, push_header, push_headers}
use easy_http.RequestBase.Headers.Names.{last_named}
use easy_http.Exchange.Headers.{sent_headers, header-push_headers}
use easy_http.Values.{string, to_lower, to_lower_byte}
use easy_http.RequestBase.Fields.{method, full_url}
use easy_http.RequestBase.Send.{send_async, cmd_of_method}
use easy_http.Request.{Request, of_event, push_params, send_request_async}
use easy_http.Request.Params.{KeepsQuery}
use easy_http.Exchange.Routing.{request_handler-send_request_async}
use easy_http.Server.{Server, new_server, request_handler}
use easy_http.Server.Target.{choose, find_first}
use easy_http.Server.Dispatch.{run_target}
use easy_http.Route.{new_route, call_route}
use easy_http.Prelude.Int.{pos}
use easy_http.RequestBase.Fields.{path}
use easy_http.Middleware.{Handler}
use easy_http.Response.{of_request}
use easy_http.Exchange.{CarriesQuery, of_event-send_request_async}
use easy_http.Tests.{
  last_query, letters, sample_platform, sample-IsCodec, sample_encoded, sample_world,
  sample_request, sample_base,
}

abbrev whole_text : Option Bytes → Option Bytes
whole_text none = none
whole_text (some s) = some (c_str s)

-- A client's libevent: the text of a URI is its query.
abbrev client : Platform
client = record sample_platform {
  uri_query = λ calls uri. whole_text (last_query calls uri);
  uri_join = λ calls uri size. whole_text (last_query calls uri);
  request_uri = λ calls e_request. none;
}

-- The text that was parsed last.
abbrev parsed_text : List Call → Option Bytes
parsed_text [] = none
parsed_text (uri_parse url nonconformant ∷ calls) = some url
parsed_text (c ∷ calls) = parsed_text calls

abbrev sent_url : Bytes
sent_url = text "ab=aab"

-- A server's libevent, which has a request with that URL.
abbrev server : Platform
server = record sample_platform {
  uri_query = λ calls uri. parsed_text calls;
  request_uri = λ calls e_request. some sent_url;
}

client-IsCodec : IsCodec client sample_encoded
client-IsCodec = record {
  encodes = sample-IsCodec.encodes;
  decodes = sample-IsCodec.decodes;
  is_plain_text = sample-IsCodec.is_plain_text;
  keeps_nonempty = sample-IsCodec.keeps_nonempty;
}

server-IsCodec : IsCodec server sample_encoded
server-IsCodec = record {
  encodes = sample-IsCodec.encodes;
  decodes = sample-IsCodec.decodes;
  is_plain_text = sample-IsCodec.is_plain_text;
  keeps_nonempty = sample-IsCodec.keeps_nonempty;
}

c_str-IsCText : (s : Bytes) → IsCText (c_str s)
unfolding c_str
c_str-IsCText [] = tt
c_str-IsCText (c ∷ s) = elim (Bool-cases (c == 0)) [
  | inl e ↦ rw e tt
  | inr e ↦ rw e (e, c_str-IsCText s)
]

whole_text-IsCText : (o : Option Bytes) (s : Bytes) → whole_text o ≡ some s → IsCText s
whole_text-IsCText none s e = ground arith
whole_text-IsCText (some t) s e = let same : c_str t ≡ s = cc in rw same at (c_str-IsCText t)

client-KeepsQuery : KeepsQuery client
unfolding last_query
client-KeepsQuery = record {
  query_set = λ calls uri query h.
      let e : (uri == uri) ≡ true = ground arith in
      rw (e, c_str_whole query (IsQueryText-IsCText query h));
}

carries : CarriesQuery client server
carries = record {
  is_text = λ calls uri url e. whole_text-IsCText (last_query calls uri) url e;
  parsed = λ calls later uri query url q j. cc (q, j);
  kept = λ calls uri e_request con. refl;
}

-- A request to send.
abbrev to_send : Request
to_send = record sample_request { base = record sample_request.base { request_type = request } }

abbrev one_param : ParamList
one_param = (1 ∷ [], 2 ∷ []) ∷ []

abbrev sent_world : World
sent_world =
    ((push_params client one_param to_send >> send_request_async client to_send) sample_world).1

sent_lem :
    (push_params client one_param to_send >> send_request_async client to_send) sample_world
    ≡ (ok tt, sent_world)
unfolding push_params render encode sample_encoded letters c_str send_request_async send_async
    full_url cmd_of_method last_query
sent_lem = refl

on_wire : sent_world.calls ≡ make_request 0 1 req_get sent_url ∷ (uri_set_query 1 sent_url ∷ [])
unfolding push_params render encode sample_encoded letters c_str send_request_async send_async
    full_url cmd_of_method last_query
on_wire = refl

one_IsParam : IsParam (1 ∷ [], 2 ∷ [])
unfolding is_array same lex
one_IsParam = record {
  key_text = (refl, tt);
  value_text = (refl, tt);
  key_nonempty = refl;
  key_plain = refl;
}

of_event-send_request_async_example :
    (r : Request) × (v : World) × (of_event server 7 sample_world ≡ (ok r, v))
    × (r.base.queries ≡ one_param)
    × (method server r.base v ≡ (ok get, v))
of_event-send_request_async_example =
    of_event-send_request_async client server sample_encoded client-IsCodec server-IsCodec
      client-KeepsQuery carries to_send one_param sample_world sent_world sample_world
      (uri_set_query 1 sent_url ∷ []) req_get sent_url 7 (tt, tt) (one_IsParam, tt) refl
      (λ calls. refl) sent_lem on_wire refl
      (record { url = λ calls. refl; command = λ calls. refl })

abbrev answers : ℕ → Handler
answers code r = pure (of_request r.base (pos code))

-- A server with a route for the path and another method, and one for both.
abbrev two_routes : Server
two_routes = record (new_server (text "0.0.0.0") (pos 80)) {
  routes = new_route post (text "/a") (answers 201) ∷ new_route get (text "/a") (answers 200) ∷ [];
}

path_lem :
    (r : Request) (v : World)
    → of_event server 7 sample_world ≡ (ok r, v)
    → path server r.base v ≡ (ok (text "/a"), v)
unfolding path c_str
path_lem r v e = refl

request_handler-send_request_async_example :
    (r : Request) × (v : World) × (of_event server 7 sample_world ≡ (ok r, v))
    × (r.base.queries ≡ one_param)
    × (request_handler server two_routes r v
        ≡ call_route (new_route get (text "/a") (answers 200)) r v)
unfolding choose find_first run_target same lex new_route new_server
request_handler-send_request_async_example =
    request_handler-send_request_async client server sample_encoded client-IsCodec server-IsCodec
      client-KeepsQuery carries to_send one_param sample_world sent_world sample_world
      (uri_set_query 1 sent_url ∷ []) req_get sent_url (text "/a") 7 two_routes (tt, tt)
      (one_IsParam, tt) refl (λ calls. refl) sent_lem on_wire refl
      (record { url = λ calls. refl; command = λ calls. refl }) path_lem
      ((λ e. cc), ((λ e. cc), tt)) tt

-- The same header, pushed twice, and one of libevent's own.
abbrev two_ids : ParamList
two_ids = (text "X-Id", text "1") ∷ (text "x-id", text "2") ∷ []

abbrev peer : Platform
peer = record sample_platform {
  input_headers = λ calls e_request. two_ids ++ (text "Host", text "a") ∷ [];
}

abbrev pushed_world : World
pushed_world = (push_headers sample_platform sample_base two_ids sample_world).1

two_ids-push_headers :
    push_headers sample_platform sample_base two_ids sample_world ≡ (ok tt, pushed_world)
unfolding push_headers push_header
two_ids-push_headers = refl

abbrev received_message : RequestBase
received_message = received 5 1 0 [] (collect_headers [] (two_ids ++ (text "Host", text "a") ∷ []))

received_lem :
    of_received peer 5 sample_world ≡ (ok received_message, (of_received peer 5 sample_world).1)
unfolding of_received of_received_from headers queries parse_query last_query
received_lem = refl

header-push_headers_example :
    header peer string received_message (text "X-ID") (text "none") ≡ text "2"
unfolding push_headers push_header sent_headers last_named c_str to_lower to_lower_byte same lex
header-push_headers_example =
    header-push_headers sample_platform peer sample_base received_message two_ids
      ((text "Host", text "a") ∷ []) 5 (text "X-ID") (text "none") sample_world pushed_world
      sample_world (of_received peer 5 sample_world).1
      (
        ((refl, (refl, (refl, (refl, tt)))), (refl, tt)),
        (((refl, (refl, (refl, (refl, tt)))), (refl, tt)), tt),
      )
      two_ids-push_headers (λ calls. refl) refl received_lem
