-- ===== src/Server/Target.antt =====
-- The abstract choice of a handler: the first route that accepts a request, else the first controller
-- with such a route.
use mathlib.Core.Path.{subst}
use easy_http.Prelude.{
  ◌≡◌, refl, arith, List, [], ◌∷◌, Option, none, some, Bool, true, false, All, if◌then◌else◌,
  Bool-cases, inl, inr,
}
use easy_http.Route.{Route}
use easy_http.Controller.{Controller}

-- The first element that passes a test.
unfoldable pub find_first : {A : Type 0} → (A → Bool) → List A → Option A
find_first p [] = none
find_first p (x ∷ xs) = if p x then some x else find_first p xs

abbrev pub is_found : {A : Type 0} → Option A → Bool
is_found none = false
is_found (some a) = true

-- Where a request goes.
pub data Target : Type 0 where
  to_route : Route → Target
  to_controller : Controller → Target
  not_found : Target

abbrev pub controller_target : Option Controller → Target
controller_target none = not_found
controller_target (some c) = to_controller c

abbrev pub route_target : Option Route → Target → Target
route_target none t = t
route_target (some r) t = to_route r

-- The first route that passes, else the first controller with a route that passes.
unfoldable pub choose : (Route → Bool) → List Route → List Controller → Target
choose p routes controllers =
    route_target (find_first p routes)
      (controller_target (find_first (λ c. is_found (find_first p c.routes)) controllers))

pub find_first-holds :
    {A : Type 0} (q : A → Bool) (xs : List A) (x : A) → find_first q xs ≡ some x → q x ≡ true
unfolding find_first
find_first-holds q [] x e = cc
find_first-holds q (y ∷ xs) x e = ground (arith, find_first-holds q xs x)

pub find_first-All :
    {A : Type 0} (P : A → Type 0) (q : A → Bool) (xs : List A) (x : A)
    → All P xs
    → find_first q xs ≡ some x
    → P x
unfolding find_first
find_first-All P q [] x h e = cc
find_first-All P q (y ∷ xs) x h e = elim (Bool-cases (q y)) [
  | inl t ↦ let same_element : y ≡ x = ground arith in subst P (same_element) h.0
  | inr t ↦ find_first-All P q xs x h.1 (ground arith)
]

pub choose-controller :
    (p : Route → Bool) (routes : List Route) (controllers : List Controller) {c : Controller}
    → choose p routes controllers ≡ to_controller c
    → find_first (λ d. is_found (find_first p d.routes)) controllers ≡ some c
unfolding choose
choose-controller p routes controllers e = ground arith

pub some_of_is_found : {A : Type 0} (o : Option A) → is_found o ≡ true → (a : A) × (o ≡ some a)
some_of_is_found none h = cc
some_of_is_found (some a) h = (a, refl)

-- The choice where there is one controller and nothing else.
pub choose_one :
    (p : Route → Bool) (c : Controller)
    → choose p [] (c ∷ [])
      ≡ (if is_found (find_first p c.routes) then to_controller c else not_found)
unfolding choose find_first
choose_one p c = elim (Bool-cases (is_found (find_first p c.routes))) [
  | inl e ↦ rw e
  | inr e ↦ rw e
]
