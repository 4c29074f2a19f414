-- ===== src/EvRequest/Content.antt =====
-- The content and the headers that are sent: GetContent, SetContent, SetFileContent and PushHeader of
-- src/ev_request.cpp.
use easy_http.Prelude.{List, [], ◌∷◌, Option, none, some, if◌then◌else◌, ◌++◌}
use easy_http.Prelude.Int.{ℤ, pos, ltb_ℤ, eq_ℤ}
use easy_http.Bytes.{Bytes, text, c_str, is_empty}
use easy_http.Outcome.{runtime_error}
use easy_http.World.{M, ◌>>=◌, ◌>>◌, pure, ask, call_int, raise}
use easy_http.World.Calls.{buffer_add, buffer_add_file, add_header}
use easy_http.World.External.{Platform}
use easy_http.EvRequest.Fields.{to_lower}
use easy_http.Utils.{open_file}
use easy_http.RequestBase.Content.{find_type, extension}
use easy_http.EvRequest.{EvRequest}

-- EvRequest::content_types_
unfoldable pub content_types : List (Bytes × Bytes)
content_types =
    (text "", text "text/html")
    ∷ (text ".html", text "text/html")
    ∷ (text ".htm", text "text/htm")
    ∷ (text ".txt", text "text/plain")
    ∷ (text ".css", text "text/css")
    ∷ (text ".gif", text "image/gif")
    ∷ (text ".jpg", text "image/jpeg")
    ∷ (text ".jpeg", text "image/jpeg")
    ∷ (text ".png", text "image/png")
    ∷ (text ".js", text "text/javascript")
    ∷ (text ".pdf", text "application/pdf")
    ∷ (text ".ps", text "application/postscript")
    ∷ []

module _ (pf : Platform) (self : EvRequest) where
  unfoldable pub get_content : M Bytes
  get_content = ask (λ h. pf.input_buffer h self.e_request)

  -- SetContent(const std::string&) and SetContent(const std::vector<char>&)
  unfoldable pub set_content : Bytes → M (Unit {0})
  set_content content = do
    r ← call_int pf (buffer_add self.e_request content)
    if eq_ℤ r (pos 0)
        then pure tt
        else raise (runtime_error (text "Failed to create add content to response buffer"))

  -- PushHeader: the key in lower case, but as it was given in the message of the exception
  unfoldable pub push_header : Bytes → Bytes → M (Unit {0})
  unfolding to_lower
  push_header key value = do
    r ← call_int pf (add_header self.e_request (c_str (to_lower key)) (c_str value))
    if eq_ℤ r (pos 0) then pure tt else raise (runtime_error (text "Cannot set header " ++ key))

  -- `if (mime != content_types_.end()) PushHeader(…)`
  unfoldable pub push_content_type : Option Bytes → M (Unit {0})
  push_content_type none = pure tt
  push_content_type (some mime) = push_header (text "content-type") mime

  -- An opened file: its header, and its content.
  unfoldable pub add_file : Bytes → ℤ → ℤ → M (Unit {0})
  add_file file_path fd size = do
    push_content_type (find_type (extension file_path) content_types)
    r ← call_int pf (buffer_add_file self.e_request fd size)
    if eq_ℤ r (pos 0)
        then pure tt
        else raise (runtime_error (text "Cannot add file content to buffer"))

  -- The branches on what `open_file` returned.
  unfoldable pub add_opened : Bytes → ℤ × ℤ → M (Unit {0})
  add_opened file_path opened =
      if ltb_ℤ (pos 0) opened.0
      then add_file file_path opened.0 opened.1
      else raise (runtime_error (text "Cannot open file"))

  unfoldable pub set_file_content : Bytes → M (Unit {0})
  set_file_content file_path =
      if is_empty file_path
      then raise (runtime_error (text "Cannot open file"))
      else open_file pf file_path >>= add_opened file_path
