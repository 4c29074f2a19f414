-- ===== src/RequestBase/Content/Types.antt =====
-- The content type of a file, by the extension of its name.
use easy_http.Prelude.{
  ℕ, ◌≡◌, refl, ap, arith, List, [], ◌∷◌, ◌++◌, Option, none, some, true, false, Bool-cases, inl,
  inr, All, length, length-append, ◌==◌,
}
use easy_http.Prelude.Int.{ℤ, pos, ltb_ℤ}
use easy_http.Bytes.{Bytes, text, same, is_empty, c_str}
use easy_http.Bytes.Order.{same_iff}
use easy_http.Outcome.{ok}
use easy_http.World.{World, continue}
use easy_http.World.Calls.{Call, open_read, fstat, add_header, buffer_add_file}
use easy_http.World.External.{Platform}
use easy_http.Utils.{open_file}
use easy_http.RequestBase.{RequestBase}
use easy_http.RequestBase.Headers.{push_header}
use easy_http.RequestBase.Content.{
  content_types, find_type, filename_from, suffix_from, extension, push_content_type, add_file,
  add_opened, set_file_content,
}

-- The text does not have the byte.
abbrev pub Lacks : ℕ → Bytes → Type 0
Lacks d s = All (λ c. (c == d) ≡ false) s

Lacks-append : (d : ℕ) (s r : Bytes) → Lacks d s → Lacks d r → Lacks d (s ++ r)
Lacks-append d [] r h k = k
Lacks-append d (c ∷ s) r h k = (h.0, Lacks-append d s r h.1 k)

-- A file name in a directory, or without one.
abbrev pub path_in : Option Bytes → Bytes → Bytes
path_in none name = name
path_in (some dir) name = dir ++ b'/' ∷ name

filename_from-name : (current s : Bytes) → Lacks b'/' s → filename_from current s ≡ current
unfolding filename_from
filename_from-name current [] h = refl
filename_from-name current (c ∷ s) h = rw h.0 (filename_from-name current s h.1)

filename_from-dir :
    (dir name : Bytes)
    → Lacks b'/' name
    → (current : Bytes) → filename_from current (dir ++ b'/' ∷ name) ≡ name
unfolding filename_from
filename_from-dir [] name h current = filename_from-name name name h
filename_from-dir (c ∷ dir) name h current = filename_from-dir dir name h _

filename_from-path_in :
    (dir : Option Bytes) (name : Bytes)
    → Lacks b'/' name
    → filename_from (path_in dir name) (path_in dir name) ≡ name
filename_from-path_in none name h = filename_from-name name name h
filename_from-path_in (some dir) name h = filename_from-dir dir name h _

suffix_from-plain : (current s : Bytes) → Lacks b'.' s → suffix_from current s ≡ current
unfolding suffix_from
suffix_from-plain current [] h = refl
suffix_from-plain current (c ∷ s) h = rw h.0 (suffix_from-plain current s h.1)

suffix_from-dot :
    (s ending : Bytes)
    → Lacks b'.' ending
    → (current : Bytes) → suffix_from current (s ++ b'.' ∷ ending) ≡ b'.' ∷ ending
unfolding suffix_from
suffix_from-dot [] ending h current = suffix_from-plain (b'.' ∷ ending) ending h
suffix_from-dot (c ∷ s) ending h current = suffix_from-dot s ending h _

-- A name and its ending, neither of them empty; the ending has no dot, and there is no slash.
pub record IsName (name ending : Bytes) : Type 0 where
  pub name_some : is_empty name ≡ false
  pub ending_some : is_empty ending ≡ false
  pub name_no_slash : Lacks b'/' name
  pub ending_no_slash : Lacks b'/' ending
  pub ending_no_dot : Lacks b'.' ending

not_dots : (n c e : ℕ) (ns es : Bytes) → same (n ∷ ns ++ b'.' ∷ e ∷ es) (text "..") ≡ false
not_dots n c e ns es = elim (Bool-cases (same (n ∷ ns ++ b'.' ∷ e ∷ es) (text ".."))) [
  | inl h ↦
      let equal = ap length ((same_iff (n ∷ ns ++ b'.' ∷ e ∷ es) (text "..")).0 h) in
      absurd (omega (arith, equal, length-append ns (b'.' ∷ e ∷ es)))
  | inr h ↦ h
]

extension-path_in :
    (dir : Option Bytes) (name ending : Bytes)
    → IsName name ending
    → extension (path_in dir (name ++ b'.' ∷ ending)) ≡ b'.' ∷ ending
unfolding extension
extension-path_in dir [] ending h = absurd (ground (arith, h.name_some))
extension-path_in dir (n ∷ name) [] h = absurd (ground (arith, h.ending_some))
extension-path_in dir (n ∷ name) (c ∷ ending) h =
    rw
      (
        filename_from-path_in dir (n ∷ name ++ b'.' ∷ c ∷ ending) (
            Lacks-append b'/' (n ∷ name) (b'.' ∷ c ∷ ending) h.name_no_slash
              (refl, h.ending_no_slash)),
        not_dots n c c name ending,
      )
      (suffix_from-dot name (c ∷ ending) h.ending_no_dot _)

path_in-nonempty :
    (dir : Option Bytes) (name ending : Bytes)
    → is_empty (path_in dir (name ++ b'.' ∷ ending)) ≡ false
path_in-nonempty none [] ending = refl
path_in-nonempty none (c ∷ name) ending = refl
path_in-nonempty (some []) name ending = refl
path_in-nonempty (some (c ∷ dir)) name ending = refl

-- The header that a type of content is set by.
abbrev pub type_calls : ℕ → Option Bytes → List Call
type_calls e_request none = []
type_calls e_request (some mime) = add_header e_request (text "content-type") (c_str mime) ∷ []

positive-not_negative : (z : ℤ) → ltb_ℤ (pos 0) z ≡ true → ltb_ℤ z (pos 0) ≡ false
positive-not_negative z h = ground arith

module _ (pf : Platform) (self : RequestBase) where
  push_content_type-accepted :
      (mime : Option Bytes) (w : World)
      → ((calls : List Call) (key value : Bytes)
          → pf.answer calls (add_header self.e_request key value) ≡ pos 0)
      → push_content_type pf self mime w
        ≡ (ok tt, record w { calls = type_calls self.e_request mime ++ w.calls })
  unfolding push_content_type push_header c_str
  push_content_type-accepted none w accepted = refl
  push_content_type-accepted (some mime) w accepted =
      rw (accepted w.calls (text "content-type") (c_str mime))

  module _ (path : Bytes) (w : World) where
    abbrev opened_calls : List Call
    opened_calls = open_read (c_str path) ∷ w.calls

    abbrev descriptor : ℤ
    descriptor = pf.answer w.calls (open_read (c_str path))

    -- The calls of SetFileContent where nothing fails, for the type of the content.
    abbrev pub file_calls : Option Bytes → List Call
    file_calls mime =
        buffer_add_file self.e_request descriptor
            (pf.file_size (fstat descriptor ∷ opened_calls) descriptor)
          ∷ type_calls self.e_request mime
        ++ fstat descriptor ∷ opened_calls

    -- The file opens, with a descriptor above 0, and its status can be read.
    abbrev pub Opens : Type 0
    Opens =
        (ltb_ℤ (pos 0) descriptor ≡ true)
        × (ltb_ℤ (pf.answer opened_calls (fstat descriptor)) (pos 0) ≡ false)

  -- A file `name.ending`, in a directory or without one, that opens is set as the content: its
  -- content type is the one that the table has for `.ending`, if it has one, and it is put in front
  -- of the content, which is the whole file.
  pub set_file_content-path_in :
      (dir : Option Bytes) (name ending : Bytes) (w : World)
      → IsName name ending
      → Opens (path_in dir (name ++ b'.' ∷ ending)) w
      → ((calls : List Call) (key value : Bytes)
          → pf.answer calls (add_header self.e_request key value) ≡ pos 0)
      → ((calls : List Call) (fd size : ℤ)
          → pf.answer calls (buffer_add_file self.e_request fd size) ≡ pos 0)
      → set_file_content pf self (path_in dir (name ++ b'.' ∷ ending)) w ≡ (
        ok tt,
        record w {
          calls =
              file_calls
                (path_in dir (name ++ b'.' ∷ ending))
                w
                (find_type (b'.' ∷ ending) content_types);
        },
      )
  unfolding set_file_content open_file add_opened add_file
  set_file_content-path_in dir name ending w is_name opens accepted added =
      let path = path_in dir (name ++ b'.' ∷ ending) in
      let mime = find_type (b'.' ∷ ending) content_types in
      let status_read = record w { calls = fstat (descriptor path w) ∷ opened_calls path w } in
      let size =
        pf.file_size (fstat (descriptor path w) ∷ opened_calls path w) (descriptor path w) in
      rw (
        path_in-nonempty dir name ending,
        positive-not_negative (descriptor path w) opens.0,
        opens.1,
        continue,
        opens.0,
        extension-path_in dir name ending is_name,
        push_content_type-accepted mime status_read accepted,
        continue,
        added (type_calls self.e_request mime ++ fstat (descriptor path w) ∷ opened_calls path w)
            (descriptor path w) size,
      )
