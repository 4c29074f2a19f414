-- ===== src/World/Yields.antt =====
-- What holds of the results of a method, where it returns.
use easy_http.Prelude.{◌≡◌, refl, Bool, true, false, if◌then◌else◌}
use easy_http.Outcome.{Exception, Outcome, ok, throw, undefined}
use easy_http.World.{World, M, ◌>>=◌, continue, raise}

abbrev pub OfResult : {A : Type 0} → (A → Type 0) → Outcome A × World → Type 0
OfResult P (ok a, w) = P a
OfResult P (throw e, w) = Unit
OfResult P (undefined, w) = Unit

-- Whatever the world is, the result has the property.
pub record Yields {A : Type 0} (P : A → Type 0) (m : M A) : Type 0 where
  pub at : (w : World) → OfResult P (m w)

pub bind-Yields :
    {A B : Type 0} (P : B → Type 0) (m : M A) (f : A → M B)
    → ((a : A) → Yields P (f a))
    → Yields P (m >>= f)
bind-Yields {A} {B} P m f q = record { at = λ w. after (m w) }
  where
    after : (p : Outcome A × World) → OfResult P (continue f p)
    after (ok a, w) = (q a).at w
    after (throw e, w) = tt
    after (undefined, w) = tt

pub if-Yields :
    {A : Type 0} (P : A → Type 0) (b : Bool) (m n : M A)
    → Yields P m
    → (b ≡ false → Yields P n)
    → Yields P (if b then m else n)
if-Yields P true m n q r = q
if-Yields P false m n q r = r refl

pub raise-Yields : {A : Type 0} (P : A → Type 0) (e : Exception) → Yields P (raise e)
raise-Yields P e = record { at = λ w. tt }

pub then-Yields :
    {A B : Type 0} (Q : A → Type 0) (P : B → Type 0) (m : M A) (f : A → M B)
    → Yields Q m
    → ((a : A) → Q a → Yields P (f a))
    → Yields P (m >>= f)
then-Yields {A} {B} Q P m f h q = record { at = λ w. after (m w) (h.at w) }
  where
    after : (p : Outcome A × World) → OfResult Q p → OfResult P (continue f p)
    after (ok a, w) holds = (q a holds).at w
    after (throw e, w) holds = tt
    after (undefined, w) holds = tt
