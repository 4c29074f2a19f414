-- ===== src/RequestBase/Content.antt =====
-- The content of a request: GetContent, SetContent and SetFileContent of src/request_base.cpp.
pub mod Types
pub mod Descriptors
use easy_http.Prelude.{List, [], ◌∷◌, Option, none, some, ◌==◌, if◌then◌else◌}
use easy_http.Prelude.Int.{ℤ, pos, eq_ℤ, ltb_ℤ}
use easy_http.Bytes.{Bytes, text, same, is_empty}
use easy_http.Outcome.{runtime_error}
use easy_http.World.{M, ◌>>=◌, ◌>>◌, pure, ask, raise, call_int}
use easy_http.World.Calls.{buffer_add, buffer_add_file}
use easy_http.World.External.{Platform}
use easy_http.Utils.{open_file}
use easy_http.RequestBase.{RequestBase}
use easy_http.RequestBase.Headers.{push_header}

-- RequestBase::content_types_
unfoldable pub content_types : List (Bytes × Bytes)
content_types =
    (text "", text "text/html")
    ∷ (text ".html", text "text/html")
    ∷ (text ".htm", text "text/htm")
    ∷ (text ".txt", text "text/plain")
    ∷ (text ".css", text "text/css")
    ∷ (text ".gif", text "image/gif")
    ∷ (text ".jpg", text "image/jpeg")
    ∷ (text ".jpeg", text "image/jpeg")
    ∷ (text ".png", text "image/png")
    ∷ (text ".js", text "text/javascript")
    ∷ (text ".pdf", text "application/pdf")
    ∷ (text ".ps", text "application/postscript")
    ∷ []

-- content_types_.find(ext)
unfoldable pub find_type : Bytes → List (Bytes × Bytes) → Option Bytes
find_type ext [] = none
find_type ext ((e, mime) ∷ types) = if same ext e then some mime else find_type ext types

-- std::filesystem::path::filename: what follows the last '/'; `current` is what follows the last
-- one seen.
unfoldable pub filename_from : Bytes → Bytes → Bytes
filename_from current [] = current
filename_from current (c ∷ s) = filename_from (if c == b'/' then s else current) s

-- The text from the last '.' on; `current` is that from the last one seen.
unfoldable pub suffix_from : Bytes → Bytes → Bytes
suffix_from current [] = current
suffix_from current (c ∷ s) = suffix_from (if c == b'.' then c ∷ s else current) s

-- The extension of a file name: a '.' in front does not count, and ".." has none.
abbrev suffix : Bytes → Bytes
suffix [] = []
suffix (c ∷ s) = if same (c ∷ s) (text "..") then [] else suffix_from [] s

-- std::filesystem::path::extension
unfoldable pub extension : Bytes → Bytes
extension file_path = suffix (filename_from file_path file_path)

module _ (pf : Platform) (self : RequestBase) where
  unfoldable pub get_content : M Bytes
  get_content = ask (λ h. pf.input_buffer h self.e_request)

  -- SetContent(const std::string&) and SetContent(const std::vector<char>&)
  unfoldable pub set_content : Bytes → M (Unit {0})
  set_content content = do
    r ← call_int pf (buffer_add self.e_request content)
    if eq_ℤ r (pos 0)
        then pure tt
        else raise (runtime_error (text "Failed to create add content to response buffer"))

  -- `if (mime != content_types_.end()) PushHeader(…)`
  unfoldable pub push_content_type : Option Bytes → M (Unit {0})
  push_content_type none = pure tt
  push_content_type (some mime) = push_header pf self (text "content-type") mime

  -- An opened file: its header, and its content.
  unfoldable pub add_file : Bytes → ℤ → ℤ → M (Unit {0})
  add_file file_path fd size = do
    push_content_type (find_type (extension file_path) content_types)
    r ← call_int pf (buffer_add_file self.e_request fd size)
    if eq_ℤ r (pos 0)
        then pure tt
        else raise (runtime_error (text "Cannot add file content to buffer"))

  -- The branches on what `open_file` returned.
  unfoldable pub add_opened : Bytes → ℤ × ℤ → M (Unit {0})
  add_opened file_path opened =
      if ltb_ℤ (pos 0) opened.0
      then add_file file_path opened.0 opened.1
      else raise (runtime_error (text "Cannot open file"))

  unfoldable pub set_file_content : Bytes → M (Unit {0})
  set_file_content file_path =
      if is_empty file_path
      then raise (runtime_error (text "Cannot open file"))
      else open_file pf file_path >>= add_opened file_path
