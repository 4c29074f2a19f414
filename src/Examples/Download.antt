-- ===== src/Examples/Download.antt =====
-- examples/client_hello_world/main.cpp: a client that gets one page. The response handler only prints.
use easy_http.Prelude.{ℕ, false}
use easy_http.Prelude.Int.{ℤ, pos}
use easy_http.Bytes.{text}
use easy_http.World.{M, ◌>>=◌, ◌>>◌, pure, catch_std}
use easy_http.World.External.{Platform}
use easy_http.RequestBase.Fields.{full_url}
use easy_http.RequestBase.Headers.{push_header}
use easy_http.Request.{send_request}
use easy_http.Client.{Client, of_host, client_get, destroy}

module _ (pf : Platform) where
  -- The body of the `try`.
  unfoldable pub download : (handler : ℕ) → Client → M (Unit {0})
  download handler c = do
    req ← client_get pf (text "/api/color_classes") handler false c
    push_header pf req.base (text "TEST_header") (text "test_value")
    full_url pf req.base
    send_request pf req

  -- The client is made outside of the `try`.
  unfoldable pub main : (handler : ℕ) → M ℤ
  main handler = do
    c ← of_host pf (text "http://localhost:4313/")
    catch_std (download handler c) (pure tt)
    destroy c
    pure (pos 0)
