-- ===== src/World/External.antt =====
-- What libevent, the operating system, std::regex and std::stod answer: parameters of the model.
use easy_http.Prelude.{ℕ, Bool, List, Option}
use easy_http.Prelude.Int.{ℤ}
use easy_http.Bytes.{Bytes}
use easy_http.Outcome.{Outcome}
use easy_http.World.Calls.{Call, CmdType}

-- std::regex_match of a whole text. A pattern that is no regular expression makes std::regex throw.
-- The sub-matches are those from index 1 on; one that took no part is empty.
pub data Matched : Type 0 where
  bad_pattern no_match : Matched
  matched : List Bytes → Matched

-- `ss_family` of an address.
pub data SocketFamily : Type 0 where
  inet inet6 local : SocketFamily
  other_family : ℕ → SocketFamily

-- The first argument of a getter is what was called before, latest first.
pub record Platform : Type 0 where
  -- the `int` and the pointer that a call returns
  pub answer : List Call → Call → ℤ
  pub pointer : List Call → Call → ℕ
  -- evhttp_uri_get_scheme, _userinfo, _host, _path, _query, _port of a URI; `none` is NULL
  pub uri_scheme : List Call → ℕ → Option Bytes
  pub uri_userinfo : List Call → ℕ → Option Bytes
  pub uri_host : List Call → ℕ → Option Bytes
  pub uri_path : List Call → ℕ → Option Bytes
  pub uri_query : List Call → ℕ → Option Bytes
  pub uri_port : List Call → ℕ → ℤ
  -- evhttp_uri_join into a buffer of a size; `none` is NULL
  pub uri_join : List Call → ℕ → ℕ → Option Bytes
  -- evhttp_uridecode(text, decode_plus), evhttp_uriencode(text, length, 0); `none` is NULL
  pub uridecode : Bytes → Bool → Option Bytes
  pub uriencode : Bytes → Option Bytes
  -- evhttp_request_get_uri, _command, _response_code, _connection
  pub request_uri : List Call → ℕ → Option Bytes
  pub request_command : List Call → ℕ → CmdType
  pub response_code : List Call → ℕ → ℤ
  pub request_connection : List Call → ℕ → ℕ
  -- evhttp_request_get_evhttp_uri, evhttp_request_is_owned
  pub request_evhttp_uri : List Call → ℕ → ℕ
  pub request_is_owned : List Call → ℕ → Bool
  -- getenv of the name is not NULL
  pub is_in_environment : Bytes → Bool
  -- the input headers of a request in their order, and its input buffer
  pub input_headers : List Call → ℕ → List (Bytes × Bytes)
  pub input_buffer : List Call → ℕ → Bytes
  -- evhttp_connection_get_base; evhttp_connection_get_peer: address and port
  pub connection_base : List Call → ℕ → ℕ
  pub connection_peer : List Call → ℕ → Bytes × ℕ
  -- `st_size` of the last fstat of a descriptor
  pub file_size : List Call → ℤ → ℤ
  -- the family of the address that the last getsockname of a socket gave, and evutil_inet_ntop of it
  pub socket_family : List Call → ℕ → SocketFamily
  pub inet_ntop : List Call → ℕ → Option Bytes
  -- std::regex_match(text, std::regex(pattern)), pattern first
  pub regex_match : Bytes → Bytes → Matched
  -- whether the compiler converts the group at this index before the groups after it: the order in
  -- which the arguments of std::tuple_cat are evaluated is its choice
  pub head_first : ℕ → Bool
  -- whether the program that uses the library keeps a copy of a request, or of a response made of it,
  -- that has this container, longer than the handling of the request takes
  pub is_kept : ℕ → Bool
  -- std::stod: the 64 bits of the `double`
  pub stod : Bytes → Outcome ℕ
