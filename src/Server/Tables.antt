-- ===== src/Server/Tables.antt =====
-- The table of controllers.
use easy_http.Prelude.{◌≡◌, refl, arith, List, [], ◌∷◌, ◌++◌, Option, none, some, if◌then◌else◌}
use easy_http.Bytes.{Bytes, same}
use easy_http.Controller.{Controller}
use easy_http.Server.{Server, register_controller, find_controller, get_controller}

-- The first of two, if it is there.
abbrev or_else : Option Controller → Option Controller → Option Controller
or_else (some c) o = some c
or_else none o = o

find_controller-append :
    (p : Bytes) (cs : List Controller) (c : Controller)
    → find_controller p (cs ++ c ∷ [])
      ≡ or_else (find_controller p cs) (if same c.url_prefix p then some c else none)
unfolding find_controller
find_controller-append p [] c = refl
find_controller-append p (d ∷ cs) c = ground (arith, find_controller-append p cs c)

-- After a controller is registered, GetController finds under a prefix what it found before, and
-- only if that was nothing the new controller, if it has the prefix: the one registered first counts.
get_controller-register_controller :
    (p : Bytes) (c : Controller) (s : Server)
    → get_controller p (register_controller c s)
      ≡ or_else (get_controller p s) (if same c.url_prefix p then some c else none)
unfolding get_controller register_controller
get_controller-register_controller p c s = find_controller-append p s.controllers c
