-- ===== src/RequestBase/Fields.antt =====
-- The getters of src/request_base.cpp.
use easy_http.Prelude.{ℕ, [], Option, none, some, Bool, false, ◌==◌, if◌then◌else◌}
use easy_http.Prelude.Int.{ℤ, pos, ltb_ℤ}
use easy_http.Bytes.{Bytes, c_str}
use easy_http.Outcome.{Outcome}
use easy_http.World.{M, ◌>>=◌, pure, ask, undefined_behaviour}
use easy_http.World.Calls.{
  CmdType, req_get, req_post, req_head, req_put, req_delete, req_options, req_trace, req_connect,
  req_patch, req_other,
}
use easy_http.World.External.{Platform}
use easy_http.RequestBase.{
  RequestMethod, get, post, head, put, delete, options, trace, connect, patch, RequestBase,
}

-- The switch of Method().
unfoldable pub method_of_cmd : CmdType → RequestMethod
method_of_cmd req_get = get
method_of_cmd req_post = post
method_of_cmd req_head = head
method_of_cmd req_put = put
method_of_cmd req_delete = delete
method_of_cmd req_options = options
method_of_cmd req_trace = trace
method_of_cmd req_connect = connect
method_of_cmd req_patch = patch
method_of_cmd (req_other n) = get

-- `p ? string(p) : ""`
abbrev pub or_empty : Option Bytes → Bytes
or_empty none = []
or_empty (some s) = s

-- #define URL_MAX 4096
abbrev pub url_max : ℕ
url_max = 4096

module _ (pf : Platform) (self : RequestBase) where
  unfoldable pub method : M RequestMethod
  unfolding method_of_cmd
  method = ask (λ h. method_of_cmd (pf.request_command h self.e_request))

  unfoldable pub full_url : M Bytes
  full_url = do
    uri ← ask (λ h. pf.request_uri h self.e_request)
    elim uri [ some url ↦ pure url | none ↦ ask (λ h. or_empty (pf.uri_join h self.e_uri url_max)) ]

  unfoldable pub scheme : M Bytes
  scheme = ask (λ h. or_empty (pf.uri_scheme h self.e_uri))

  unfoldable pub user : M Bytes
  user = ask (λ h. or_empty (pf.uri_userinfo h self.e_uri))

  unfoldable pub host : M Bytes
  host = ask (λ h. or_empty (pf.uri_host h self.e_uri))

  unfoldable pub port : M ℤ
  port = do p ← ask (λ h. pf.uri_port h self.e_uri); pure (if ltb_ℤ (pos 0) p then p else pos 80)

  -- The decoder reads the path before the test for NULL, and the string is made of what it returns.
  unfoldable pub path : M Bytes
  path = do
    p ← ask (λ h. pf.uri_path h self.e_uri)
    elim p [
      | none ↦ undefined_behaviour
      | some s ↦ elim (pf.uridecode s false) [
        | none ↦ undefined_behaviour
        | some d ↦ pure (c_str d)
      ]
    ]

  unfoldable pub response_code : M ℤ
  response_code = ask (λ h. pf.response_code h self.e_request)

  -- `uint16_t port = -1` is what is returned without a connection.
  unfoldable pub connection_port : M ℕ
  connection_port = do
    e_conn ← ask (λ h. pf.request_connection h self.e_request)
    if e_conn == 0 then pure 65535 else ask (λ h. (pf.connection_peer h e_conn).1)

  unfoldable pub connection_address : M Bytes
  connection_address = do
    e_conn ← ask (λ h. pf.request_connection h self.e_request)
    if e_conn == 0 then pure [] else ask (λ h. (pf.connection_peer h e_conn).0)

  -- IsComplete() reads the shared container.
  unfoldable pub is_complete : M Bool
  is_complete w = (Outcome.ok (w.containers self.cb_container).is_complete, w)
