-- ===== src/Middleware/Order.antt =====
-- The order in which the objects of a chain are called.
use mathlib.Core.Path.{fun_ext}
use easy_http.Prelude.{
  ℕ, ◌≡◌, refl, ap, List, [], ◌∷◌, ◌++◌, Option, none, some, ◌==◌, if◌then◌else◌,
}
use easy_http.Middleware.{
  Handler, Layer, Last, Chain, empty, node, resolve, call_handler, append, find_kind,
}

-- Each layer round the next, and the handler in the middle.
unfoldable pub wrap : List Layer → Handler → Handler
wrap [] h = h
wrap (m ∷ ms) h = λ request. m.handle request (wrap ms h)

-- The objects of a chain from the first on.
unfoldable pub layers : Chain → List Layer
layers empty = []
layers (node m last next) = m ∷ layers next

-- Every `last_` of the chain calls `h`.
abbrev pub EndsIn : Handler → Handler → Chain → Type 0
EndsIn self h empty = Unit
EndsIn self h (node m last next) = (resolve self last ≡ h) × EndsIn self h next

pub layers-append :
    (m : Layer) (last : Last) (c : Chain) → layers (append m last c) ≡ layers c ++ m ∷ []
unfolding layers append
layers-append m last empty = refl
layers-append m last (node m' last' next) = ap (λ l. m' ∷ l) (layers-append m last next)

pub EndsIn-append :
    (self h : Handler) (m : Layer) (last : Last) (c : Chain)
    → resolve self last ≡ h
    → EndsIn self h c
    → EndsIn self h (append m last c)
unfolding append
EndsIn-append self h m last empty e k = (e, tt)
EndsIn-append self h m last (node m' last' next) e k = (k.0, EndsIn-append self h m last next e k.1)

-- A chain whose every `last_` calls the handler `h` calls its objects from the first to the last,
-- each with the rest as its `next`, and `h` at the end.
pub call_handler-eq-wrap :
    (self h : Handler) (m : Layer) (last : Last) (next : Chain)
    → EndsIn self h (node m last next)
    → call_handler self m last next ≡ wrap (m ∷ layers next) h
unfolding call_handler wrap layers
call_handler-eq-wrap self h m last empty k = fun_ext (λ request. ap (m.handle request) k.0)
call_handler-eq-wrap self h m last (node m' last' next) k =
    fun_ext (λ request. ap (m.handle request) (call_handler-eq-wrap self h m' last' next k.1))

-- The first of the objects with a type.
unfoldable pub first_of_kind : ℕ → List Layer → Option Layer
first_of_kind kind [] = none
first_of_kind kind (m ∷ ms) = if m.kind == kind then some m else first_of_kind kind ms

-- GetMiddlewareByType finds the first object of the type in the order in which the chain calls its
-- objects.
find_kind-layers : (kind : ℕ) (c : Chain) → find_kind kind c ≡ first_of_kind kind (layers c)
unfolding find_kind layers first_of_kind
find_kind-layers kind empty = refl
find_kind-layers kind (node m last next) =
    ap (λ o. if m.kind == kind then some m else o) (find_kind-layers kind next)
