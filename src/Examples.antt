-- ===== src/Examples.antt =====
-- The programs of examples/, which show the use of the library. What they print is left out.
pub mod HelloWorld
pub mod Users
pub mod Authentication
pub mod Download
use easy_http.Prelude.{ℕ, ◌++◌, if◌then◌else◌, Bool}
use easy_http.Prelude.Int.{ℤ, pos, negsuc, eq_ℤ}
use easy_http.Bytes.{Bytes, text}
use easy_http.World.{M, ◌>>=◌, ◌>>◌, pure}
use easy_http.World.External.{Platform}
use easy_http.Values.{string}
use easy_http.RequestBase.Content.{set_content}
use easy_http.RequestBase.Headers.{query}
use easy_http.Request.{Request}
use easy_http.Response.{Response, of_request}
use easy_http.Server.{Server}
use easy_http.Server.Lifecycle.{start, destroy}

-- `Response response(request, code); response.SetContent(content); return move(response);`. A
-- Response has no move constructor, so it is copied.
unfoldable pub answer : Platform → ℕ → Bytes → Request → M Response
answer pf code content request = do
  let response = of_request request.base (pos code)
  set_content pf response.base content
  pure response

-- "Hello " and the parameter `name`.
unfoldable pub greeting : Platform → Request → Bytes
greeting pf request = text "Hello " ++ query pf string request.base (text "name") (text "no-name")

-- The end of each main(): Start, the exit code, and the destructor of the server.
unfoldable pub run : Platform → Server → M ℤ
run pf s = do
  started ← start pf s
  destroy started.1
  pure (if eq_ℤ started.0 (pos 0) then pos 0 else negsuc 0)
