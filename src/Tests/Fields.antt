-- ===== src/Tests/Fields.antt =====
-- Examples of the content of files, of the variables of URLs and of the callbacks for responses.
use easy_http.Prelude.{List, [], ◌∷◌, some, true, false, ◌+◌, arith, ◌≡◌, refl}
use easy_http.Prelude.Int.{ℤ, pos}
use easy_http.Bytes.{text, c_str}
use easy_http.Outcome.{ok, throw, invalid_argument}
use easy_http.Values.{string, int, time, get_val, stoi, read_integer, read_unsigned, read_digits}
use easy_http.World.Calls.{Call, open_read}
use easy_http.World.External.{Platform, no_match, matched}
use easy_http.RequestBase.Fields.{path}
use easy_http.RequestBase.Content.{set_file_content, find_type, content_types}
use easy_http.RequestBase.Content.Types.{IsName, file_calls, set_file_content-path_in}
use easy_http.RequestBase.Content.Descriptors.{KeepsOpen, set_file_content-KeepsOpen}
use easy_http.RequestBase.{assign, of_received, of_received_from, headers, collect_headers}
use easy_http.RequestBase.Fields.{is_complete}
use easy_http.RequestBase.Send.{response_handle, response_chunked_handle, on_reply_complete}
use easy_http.RequestBase.Send.Pending.{responses, IsPending}
use easy_http.RequestBase.Send.Callbacks.{start, chunk, Chunks-response_handle}
use easy_http.World.{World}
use easy_http.World.Count.{total}
use easy_http.Queries.{queries, parse_query}
use easy_http.RequestBase.Url.{url_vars}
use easy_http.RequestBase.Url.Vars.{Variable, url_vars-matched, url_vars-no_match}
use easy_http.Tests.{sample_platform, sample_world, sample_base, last_query}

-- A system whose files open.
abbrev answers : Call → ℤ
answers (open_read file) = pos 3
answers _ = pos 0

abbrev with_files : Platform
with_files = record sample_platform { answer = λ calls c. answers c }

page_IsName : IsName (text "page") (text "html")
page_IsName = record {
  name_some = refl;
  ending_some = refl;
  name_no_slash = (refl, (refl, (refl, (refl, tt))));
  ending_no_slash = (refl, (refl, (refl, (refl, tt))));
  ending_no_dot = (refl, (refl, (refl, (refl, tt))));
}

set_file_content-path_in_example :
    set_file_content with_files sample_base (text "site.d/page.html") sample_world ≡ (
      ok tt,
      record sample_world {
        calls =
            file_calls with_files sample_base
              (text "site.d/page.html")
              sample_world
              (find_type (text ".html") content_types);
      },
    )
set_file_content-path_in_example =
    set_file_content-path_in with_files sample_base (some (text "site.d")) (text "page")
      (text "html") sample_world page_IsName (refl, refl) (λ calls key value. refl)
      (λ calls fd size. refl)

set_file_content-KeepsOpen_example :
    KeepsOpen with_files sample_base
      (pos 3)
      sample_world
      (set_file_content with_files sample_base (text "page.html") sample_world)
set_file_content-KeepsOpen_example =
    set_file_content-KeepsOpen with_files sample_base (text "page.html") (pos 3) sample_world refl
      refl refl refl

-- A path with the groups "7" and "x".
abbrev at_user : Platform
at_user = record sample_platform { regex_match = λ pattern s. matched (text "7" ∷ text "x" ∷ []) }

seven : get_val at_user.stod int (text "7") ≡ ok (pos 7)
unfolding get_val stoi read_integer read_unsigned read_digits
seven = refl

x_lem : get_val at_user.stod string (text "x") ≡ ok (text "x")
unfolding get_val
x_lem = refl

abbrev two_variables : List (Variable at_user)
two_variables =
    record { type = int; group_text = text "7"; value = pos 7; converts = seven }
    ∷ record { type = string; group_text = text "x"; value = text "x"; converts = x_lem }
    ∷ []

user_readable : path at_user sample_base sample_world ≡ (ok (text "/a"), sample_world)
unfolding path c_str
user_readable = refl

url_vars-matched_example :
    url_vars at_user sample_base (int ∷ string ∷ []) (text "/user/([0-9]+)/(.)") sample_world
    ≡ (ok (pos 7, (text "x", tt)), sample_world)
url_vars-matched_example =
    url_vars-matched at_user sample_base (text "/user/([0-9]+)/(.)") (text "/a") sample_world
      two_variables [] user_readable refl

abbrev elsewhere : Platform
elsewhere = record sample_platform { regex_match = λ pattern s. no_match }

elsewhere_readable : path elsewhere sample_base sample_world ≡ (ok (text "/a"), sample_world)
unfolding path c_str
elsewhere_readable = refl

url_vars-no_match_example :
    url_vars elsewhere sample_base (string ∷ time ∷ int ∷ []) (text "/user/([0-9]+)") sample_world
    ≡ (throw (invalid_argument (text "stoi")), sample_world)
url_vars-no_match_example =
    url_vars-no_match elsewhere sample_base (text "/user/([0-9]+)") (text "/a") sample_world
      (string ∷ time ∷ int ∷ []) elsewhere_readable refl tt

-- A request with container 0 and handler 7 was sent; a chunk comes, and then the end.
abbrev sent_world : World
sent_world = record sample_world {
  containers = λ n. record { is_complete = false; e_con = 0; response_handler = 7 };
  next_container = 1;
}

abbrev chunk_world : World
chunk_world = (response_chunked_handle sample_platform 1 0 sent_world).1

chunk_lem : response_chunked_handle sample_platform 1 0 sent_world ≡ (ok tt, chunk_world)
unfolding response_chunked_handle of_received of_received_from headers collect_headers queries
    parse_query last_query
chunk_lem = refl

abbrev answered_world : World
answered_world = (response_handle sample_platform 1 0 chunk_world).1

answered_lem : response_handle sample_platform 1 0 chunk_world ≡ (ok tt, answered_world)
unfolding response_handle response_chunked_handle of_received of_received_from headers
    collect_headers queries parse_query last_query on_reply_complete
answered_lem = refl

sent-IsPending : IsPending 7 0 sent_world
sent-IsPending = record { made = omega arith; unmarked = refl; answered_by = refl }

Chunks-response_handle_example :
    (is_complete sample_platform (assign sample_base sample_base) chunk_world
      ≡ (ok false, chunk_world))
    × (total (responses 7) chunk_world.calls ≡ total (responses 7) sent_world.calls + 1)
    × (is_complete sample_platform (assign sample_base sample_base) answered_world
        ≡ (ok true, answered_world))
    × (total (responses 7) answered_world.calls ≡ total (responses 7) sent_world.calls + 2)
Chunks-response_handle_example =
    Chunks-response_handle sample_platform 1 7 sample_base sample_base 1 sent_world chunk_world
      answered_world sent-IsPending (chunk start chunk_lem) answered_lem
