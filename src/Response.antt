-- ===== src/Response.antt =====
-- `Response` of include/easy_http/response.h and src/response.cpp. Its destructor does nothing.
pub mod Status
use easy_http.Prelude.{ℕ, Option, Bool, ◌&&◌, ◌||◌}
use easy_http.Prelude.Int.{ℤ, pos, ltb_ℤ, leb_ℤ, eq_ℤ}
use easy_http.Bytes.{text}
use easy_http.Outcome.{Outcome, throw, runtime_error}
use easy_http.World.{M, ◌>>=◌, ◌>>◌, pure}
use easy_http.World.External.{Platform}
use easy_http.RequestBase.{RequestBase, of_received}
use easy_http.RequestBase.Fields.{response_code}
use easy_http.RequestBase.Reply.{ChunkState, reply}

pub record Response : Type 0 where
  pub base : RequestBase
  pub status_code : ℤ

-- Response(const RequestBase&, int)
unfoldable pub of_request : RequestBase → ℤ → Response
of_request req status_code = record { base = req; status_code = status_code }

unfoldable pub set_status_code : ℤ → Response → Response
set_status_code code self = record self { status_code = code }

module _ (pf : Platform) where
  -- Response(evhttp_request*)
  unfoldable pub of_reply : ℕ → M Response
  of_reply e_request = do
    base ← of_received pf e_request
    code ← response_code pf base
    pure (record { base = base; status_code = code })

  -- Send(); the `int` that it returns is always 0. The value is the chunked reply that goes on.
  unfoldable pub send : Response → M (Option ChunkState)
  send self = reply pf self.base self.status_code

unfoldable pub is_invalid : Response → Bool
is_invalid self = ltb_ℤ self.status_code (pos 100) || leb_ℤ (pos 600) self.status_code

unfoldable pub is_informational : Response → Bool
is_informational self = leb_ℤ (pos 100) self.status_code && ltb_ℤ self.status_code (pos 200)

unfoldable pub is_successful : Response → Bool
is_successful self = leb_ℤ (pos 200) self.status_code && ltb_ℤ self.status_code (pos 300)

unfoldable pub is_redirection : Response → Bool
is_redirection self = leb_ℤ (pos 300) self.status_code && ltb_ℤ self.status_code (pos 400)

unfoldable pub is_client_error : Response → Bool
is_client_error self = leb_ℤ (pos 400) self.status_code && ltb_ℤ self.status_code (pos 500)

unfoldable pub is_server_error : Response → Bool
is_server_error self = leb_ℤ (pos 500) self.status_code && ltb_ℤ self.status_code (pos 600)

unfoldable pub is_ok : Response → Bool
is_ok self = eq_ℤ self.status_code (pos 200)

unfoldable pub is_unauthorized : Response → Bool
is_unauthorized self = eq_ℤ self.status_code (pos 401)

unfoldable pub is_forbidden : Response → Bool
is_forbidden self = eq_ℤ self.status_code (pos 403)

unfoldable pub is_redirect : Response → Outcome Bool
is_redirect self = throw (runtime_error (text "Not Implemented"))

unfoldable pub is_empty_response : Response → Outcome Bool
is_empty_response self = throw (runtime_error (text "Not Implemented"))
