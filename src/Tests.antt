-- ===== src/Tests.antt =====
-- The platform and the requests that the examples use: a small model of libevent that keeps the
-- suppositions of the theorems.
pub mod Queries
pub mod Routing
pub mod Replies
pub mod Lifecycle
pub mod Objects
pub mod Servers
pub mod Clients
pub mod Sites
pub mod Streams
pub mod Meanings
pub mod Fields
pub mod Exchange
use easy_http.Prelude.{
  ℕ, zero, suc, ◌+◌, List, [], ◌∷◌, ◌++◌, Option, none, some, Bool, true, false, ◌==◌, ◌≡◌, refl,
  ap, ◌∙◌, arith, if◌then◌else◌,
}
use easy_http.Prelude.Int.{ℤ, pos}
use easy_http.Bytes.{Bytes, text, same, is_empty}
use easy_http.Outcome.{ok, throw, invalid_argument}
use easy_http.World.{World}
use easy_http.World.Calls.{Call, uri_set_query, req_get}
use easy_http.World.External.{Platform, Matched, no_match, matched, inet}
use easy_http.Queries.{queries, parse_query}
use easy_http.Queries.Texts.{IsCText, IsPlain, IsQueryText, IsCodec}
use easy_http.RequestBase.{
  RequestBase, get, of_received, of_received_from, headers, collect_headers,
}
use easy_http.Request.{Request, of_event}
use easy_http.Request.Params.{KeepsQuery}
use easy_http.Prelude.{All, All-append}

-- A way of writing any bytes with plain characters: a byte c as c letters 'a' and then 'b'.
unfoldable pub letters : ℕ → Bytes → Bytes
letters zero rest = b'b' ∷ rest
letters (suc n) rest = b'a' ∷ letters n rest

unfoldable pub sample_encoded : Bytes → Bytes
sample_encoded [] = []
sample_encoded (c ∷ s) = letters c (sample_encoded s)

-- Reads it, with the number of letters since the last byte.
unfoldable pub sample_decoded : ℕ → Bytes → Bytes
sample_decoded n [] = []
sample_decoded n (c ∷ s) =
    let next = sample_decoded 0 s in
    let more = sample_decoded (suc n) s in if c == b'a' then more else n ∷ next

-- The query that was set last.
unfoldable pub last_query : List Call → ℕ → Option Bytes
last_query [] uri = none
last_query (uri_set_query u query ∷ calls) uri =
    if u == uri then some query else last_query calls uri
last_query (c ∷ calls) uri = last_query calls uri

abbrev pub sample_match : Bytes → Bytes → Matched
sample_match pattern s = if same pattern s then matched [] else no_match

abbrev pub sample_platform : Platform
sample_platform = record {
  answer = λ calls c. pos 0;
  pointer = λ calls c. 1;
  uri_scheme = λ calls uri. none;
  uri_userinfo = λ calls uri. none;
  uri_host = λ calls uri. none;
  uri_path = λ calls uri. some (text "/a");
  uri_query = last_query;
  uri_port = λ calls uri. pos 0;
  uri_join = λ calls uri size. none;
  uridecode = λ s plus. if plus then some (sample_decoded 0 s) else some s;
  uriencode = λ s. some (sample_encoded s);
  request_uri = λ calls request. some (text "/a");
  request_command = λ calls request. req_get;
  response_code = λ calls request. pos 200;
  request_connection = λ calls request. 1;
  request_evhttp_uri = λ calls request. 1;
  request_is_owned = λ calls request. false;
  is_in_environment = λ name. false;
  input_headers = λ calls request. [];
  input_buffer = λ calls request. [];
  connection_base = λ calls connection. 1;
  connection_peer = λ calls connection. ([], 0);
  file_size = λ calls fd. pos 0;
  socket_family = λ calls socket. inet;
  inet_ntop = λ calls socket. none;
  regex_match = sample_match;
  head_first = λ index. false;
  is_kept = λ con. false;
  stod = λ s. throw (invalid_argument (text "stod"));
}

decoded-letters :
    (k c : ℕ) (rest : Bytes) → sample_decoded k (letters c rest) ≡ (k + c) ∷ sample_decoded 0 rest
unfolding sample_decoded letters
decoded-letters k zero rest = ap (λ n. n ∷ sample_decoded 0 rest) (omega arith)
decoded-letters k (suc c) rest =
    decoded-letters (suc k) c rest ∙ ap (λ n. n ∷ sample_decoded 0 rest) (omega arith)

decoded-encoded : (s : Bytes) → sample_decoded 0 (sample_encoded s) ≡ s
unfolding sample_decoded sample_encoded
decoded-encoded [] = refl
decoded-encoded (c ∷ s) =
    rw (decoded-letters 0 c (sample_encoded s), decoded-encoded s) (ap (λ n. n ∷ s) (omega arith))

letters-IsPlain : (c : ℕ) (rest : Bytes) → IsPlain rest → IsPlain (letters c rest)
unfolding letters
letters-IsPlain zero rest h = (refl, h)
letters-IsPlain (suc c) rest h = (refl, letters-IsPlain c rest h)

encoded-IsPlain : (s : Bytes) → IsPlain (sample_encoded s)
unfolding sample_encoded
encoded-IsPlain [] = tt
encoded-IsPlain (c ∷ s) = letters-IsPlain c (sample_encoded s) (encoded-IsPlain s)

letters-nonempty : (c : ℕ) (rest : Bytes) → is_empty (letters c rest) ≡ false
unfolding letters
letters-nonempty zero rest = refl
letters-nonempty (suc c) rest = refl

encoded-nonempty : (s : Bytes) → is_empty s ≡ false → is_empty (sample_encoded s) ≡ false
unfolding sample_encoded
encoded-nonempty [] h = h
encoded-nonempty (c ∷ s) h = letters-nonempty c (sample_encoded s)

pub sample-IsCodec : IsCodec sample_platform sample_encoded
sample-IsCodec = record {
  encodes = λ s h. refl;
  decodes = λ s h. ap some (decoded-encoded s);
  is_plain_text = λ s h. encoded-IsPlain s;
  keeps_nonempty = λ s h. encoded-nonempty s;
}

pub sample-KeepsQuery : KeepsQuery sample_platform
unfolding last_query
sample-KeepsQuery = record { query_set = λ calls uri query h. ground arith }

abbrev pub sample_world : World
sample_world = record {
  calls = [];
  containers = λ n. record { is_complete = false; e_con = 0; response_handler = 0 };
  next_container = 0;
}

abbrev pub sample_base : RequestBase
sample_base = record {
  request_type = easy_http.RequestBase.response;
  e_request = 1;
  e_uri = 1;
  cb_container = 0;
  response_handler = 0;
  is_chunked = false;
  chunk_callback = none;
  queries = [];
  input_headers = [];
}

abbrev pub sample_request : Request
sample_request = record { base = sample_base; e_con = 0; method = get }

-- The request that libevent hands over at the sample world, and the world then.
abbrev pub made_world : World
made_world = (of_event sample_platform 1 sample_world).1

abbrev pub made_request : Request
made_request = record sample_request { base = record sample_request.base { e_request = 1 } }

pub made_lem : of_event sample_platform 1 sample_world ≡ (ok made_request, made_world)
unfolding of_event of_received of_received_from headers collect_headers queries parse_query
    last_query
made_lem = refl
