-- ===== src/Response/Status.antt =====
-- The classes of status codes.
use easy_http.Prelude.{ℕ, ◌+◌, ◌≡◌, Bool, arith, if◌then◌else◌}
use easy_http.Response.{
  Response, is_invalid, is_informational, is_successful, is_redirection, is_client_error,
  is_server_error,
}

abbrev pub count : Bool → ℕ
count b = if b then 1 else 0

-- Every response is in exactly one of the six classes, whatever its status code.
one_class :
    (r : Response)
    → count (is_invalid r)
        + count (is_informational r)
        + count (is_successful r)
        + count (is_redirection r)
        + count (is_client_error r)
        + count (is_server_error r)
      ≡ 1
unfolding is_invalid is_informational is_successful is_redirection is_client_error is_server_error
one_class r = ground arith
