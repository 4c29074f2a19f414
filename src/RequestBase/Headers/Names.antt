-- ===== src/RequestBase/Headers/Names.antt =====
-- Names of headers: the case does not matter for those that were received.
use easy_http.Prelude.{◌≡◌, refl, ap, ◌∙◌, arith, List, [], ◌∷◌, Option, none, some, if◌then◌else◌}
use easy_http.Bytes.{Bytes, same, is_empty}
use easy_http.Bytes.Order.{same_iff}
use easy_http.ParamList.{ParamList, find, insert}
use easy_http.ParamList.Laws.{find-insert}
use easy_http.Values.{to_lower, string, get_val_or, is_filled, get_val}
use easy_http.World.External.{Platform}
use easy_http.RequestBase.{RequestBase, collect_headers}
use easy_http.RequestBase.Headers.{header}

abbrev pub or_else : Option Bytes → Option Bytes → Option Bytes
or_else (some v) o = some v
or_else none o = o

-- The value of the last of the headers whose name is the given one in lower case.
unfoldable pub last_named : Bytes → List (Bytes × Bytes) → Option Bytes
last_named k [] = none
last_named k ((name, value) ∷ headers) =
    or_else (last_named k headers) (if same (to_lower name) k then some value else none)

or_else-none : (o : Option Bytes) → or_else o none ≡ o
or_else-none none = refl
or_else-none (some v) = refl

find-collect_headers :
    (k : Bytes) (list : ParamList) (hs : List (Bytes × Bytes))
    → find k (collect_headers list hs) ≡ or_else (last_named k hs) (find k list)
unfolding collect_headers last_named
find-collect_headers k list [] = refl
find-collect_headers k list ((name, value) ∷ hs) =
    find-collect_headers k (insert (to_lower name) value list) hs
    ∙ ground (
      arith,
      find-insert k (to_lower name) value list,
      same_iff k (to_lower name),
      same_iff (to_lower name) k,
    )

-- A text, unless there is none or it is empty.
abbrev pub or_default : Bytes → Option Bytes → Bytes
or_default d none = d
or_default d (some v) = if is_empty v then d else v

get_val_or-string :
    (pf : Platform) (list : ParamList) (k d : Bytes)
    → get_val_or pf.stod string list k d ≡ or_default d (find k list)
unfolding get_val_or is_filled get_val
get_val_or-string pf list k d = ground arith

-- `Header<string>(name, default)` of a received request returns the value of the last header with
-- that name, compared without case, or the default if there is none or its value is empty.
pub header-last :
    (pf : Platform) (self : RequestBase) (raw : List (Bytes × Bytes)) (name d : Bytes)
    → self.input_headers ≡ collect_headers [] raw
    → header pf string self name d ≡ or_default d (last_named (to_lower name) raw)
unfolding header find
header-last pf self raw name d e =
    get_val_or-string pf self.input_headers (to_lower name) d
    ∙ ap (or_default d) (rw e (find-collect_headers (to_lower name) [] raw ∙ or_else-none _))
