-- ===== src/EvRequest/Fields.antt =====
-- The getters of src/ev_request.cpp. The statements behind the first `return` of Scheme, User, Host
-- and Port are never reached.
use easy_http.Prelude.{
  ℕ, ◌+◌, ◌-◌, List, [], ◌∷◌, ◌++◌, map, length, take, drop, none, some, Bool, true, false, ◌&&◌,
  leb, ltb, ◌==◌, if◌then◌else◌,
}
use easy_http.Prelude.Int.{ℤ, pos, ltb_ℤ}
use easy_http.Bytes.{Bytes, text, same, c_str}
use easy_http.Outcome.{Outcome, ok, undefined}
use easy_http.ParamList.{ParamList, find, insert}
use easy_http.World.{M, ◌>>=◌, pure, ask, undefined_behaviour}
use easy_http.World.Calls.{
  CmdType, req_get, req_post, req_head, req_put, req_delete, req_options, req_trace, req_connect,
  req_patch, req_other,
}
use easy_http.World.External.{Platform}
use easy_http.Queries.{matches}
use easy_http.RequestBase.{
  RequestMethod, get, post, head, put, delete, options, trace, connect, patch,
}
use easy_http.RequestBase.Fields.{or_empty, url_max}
use easy_http.EvRequest.{EvRequest}

-- The switch of Method().
unfoldable pub method_of_cmd : CmdType → RequestMethod
method_of_cmd req_get = get
method_of_cmd req_post = post
method_of_cmd req_head = head
method_of_cmd req_put = put
method_of_cmd req_delete = delete
method_of_cmd req_options = options
method_of_cmd req_trace = trace
method_of_cmd req_connect = connect
method_of_cmd req_patch = patch
method_of_cmd (req_other n) = get

-- The lambda of ToLower, std::tolower of the "C" locale.
unfoldable pub to_lower_byte : ℕ → ℕ
to_lower_byte c = if leb b'A' c && leb c b'Z' then c + 32 else c

unfoldable pub to_lower : Bytes → Bytes
unfolding to_lower_byte
to_lower str = map to_lower_byte str

-- The loop of Headers() over libevent's list.
unfoldable pub collect_headers : ParamList → List (Bytes × Bytes) → ParamList
collect_headers list [] = list
collect_headers list ((key, value) ∷ headers) =
    collect_headers (insert (to_lower key) value list) headers

-- `key.size() > 2 && key.substr(key.size() - 2) == "[]"`
unfoldable pub is_array : Bytes → Bool
is_array key = ltb 2 (length key) && same (drop (length key - 2) key) (text "[]")

-- One round of the loop of Queries(): `list` after the decoded key and value.
unfoldable pub add_param : Bytes → Bytes → ParamList → ParamList
unfolding is_array
add_param key value list =
    if is_array key
    then (let name = take (length key - 2) key in
        elim (find name list) [
          | some old ↦ insert name (old ++ (text "," ++ value)) list
          | none ↦ insert name value list
        ])
    else insert key value list

module _ (pf : Platform) where
  -- The loop over the matches of the pattern; `std::string key(k)` of NULL is undefined, and else it
  -- ends at a NUL.
  unfoldable pub add_matches : ParamList → List (Bytes × Bytes) → Outcome ParamList
  unfolding add_param
  add_matches list [] = ok list
  add_matches list ((k, v) ∷ ms) = elim (pf.uridecode (c_str k) true) [
    | none ↦ undefined
    | some key ↦ elim (pf.uridecode (c_str v) true) [
      | none ↦ undefined
      | some value ↦ add_matches (add_param (c_str key) (c_str value) list) ms
    ]
  ]

module _ (pf : Platform) (self : EvRequest) where
  unfoldable pub method : M RequestMethod
  unfolding method_of_cmd
  method = ask (λ h. method_of_cmd (pf.request_command h self.e_request))

  unfoldable pub full_url : M Bytes
  full_url = do
    uri ← ask (λ h. pf.request_uri h self.e_request)
    elim uri [ some url ↦ pure url | none ↦ ask (λ h. or_empty (pf.uri_join h self.e_uri url_max)) ]

  unfoldable pub scheme : M Bytes
  scheme = ask (λ h. or_empty (pf.uri_scheme h self.e_uri))

  unfoldable pub user : M Bytes
  user = ask (λ h. or_empty (pf.uri_userinfo h self.e_uri))

  unfoldable pub host : M Bytes
  host = ask (λ h. or_empty (pf.uri_host h self.e_uri))

  unfoldable pub port : M ℤ
  port = do p ← ask (λ h. pf.uri_port h self.e_uri); pure (if ltb_ℤ (pos 0) p then p else pos 80)

  -- Path(): of the URI that libevent keeps with the request, and not of `e_uri_`.
  unfoldable pub path : M Bytes
  path = do
    e_uri ← ask (λ h. pf.request_evhttp_uri h self.e_request)
    p ← ask (λ h. pf.uri_path h e_uri)
    elim p [
      | none ↦ undefined_behaviour
      | some s ↦ elim (pf.uridecode s false) [
        | none ↦ undefined_behaviour
        | some d ↦ pure (c_str d)
      ]
    ]

  -- Queries(). std::sregex_iterator goes over the matches of the pattern, which is that of
  -- RequestBase::Queries.
  unfoldable pub queries : M ParamList
  unfolding add_matches
  queries w = elim (pf.uri_query w.calls self.e_uri) [
    | none ↦ (ok [], w)
    | some query_str ↦ (add_matches pf [] (matches query_str), w)
  ]

  unfoldable pub headers : M ParamList
  unfolding collect_headers
  headers = ask (λ h. collect_headers [] (pf.input_headers h self.e_request))

  unfoldable pub response_code : M ℤ
  response_code = ask (λ h. pf.response_code h self.e_request)

  unfoldable pub connection_port : M ℕ
  connection_port = do
    e_conn ← ask (λ h. pf.request_connection h self.e_request)
    if e_conn == 0 then pure 65535 else ask (λ h. (pf.connection_peer h e_conn).1)

  unfoldable pub connection_address : M Bytes
  connection_address = do
    e_conn ← ask (λ h. pf.request_connection h self.e_request)
    if e_conn == 0 then pure [] else ask (λ h. (pf.connection_peer h e_conn).0)
