-- ===== src/World/Keeps.antt =====
-- Methods that keep what holds of the calls made, however they end.
use easy_http.Prelude.{List, ◌∷◌, Bool, true, false, if◌then◌else◌, ◌≡◌, refl}
use easy_http.Outcome.{Outcome, ok, throw, undefined}
use easy_http.World.{World, M, ◌>>=◌, continue, emit, call_int, call_ptr, on_throw, unwind_throw}
use easy_http.World.Calls.{Call}
use easy_http.World.External.{Platform}

pub record Keeps (I : List Call → Type 0) {A : Type 0} (m : M A) : Type 0 where
  pub at : (w : World) → I w.calls → I (m w).1.calls

module _ (I : List Call → Type 0) where
  pub bind-Keeps :
      {A B : Type 0} (m : M A) (f : A → M B)
      → Keeps I m
      → ((a : A) → Keeps I (f a))
      → Keeps I (m >>= f)
  bind-Keeps {A} {B} m f q r = record { at = λ w h. after (m w) (q.at w h) }
    where
      after : (p : Outcome A × World) → I p.1.calls → I (continue f p).1.calls
      after (ok a, w) h = (r a).at w h
      after (throw e, w) h = h
      after (undefined, w) h = h

  pub if-Keeps :
      {A : Type 0} (b : Bool) (m n : M A)
      → Keeps I m
      → (b ≡ false → Keeps I n)
      → Keeps I (if b then m else n)
  if-Keeps true m n q r = q
  if-Keeps false m n q r = r refl

  pub on_throw-Keeps :
      {A : Type 0} (destroy : World → World) (m : M A)
      → Keeps I m
      → ((w : World) → I w.calls → I (destroy w).calls)
      → Keeps I (on_throw destroy m)
  on_throw-Keeps {A} destroy m q r = record { at = λ w h. after (m w) (q.at w h) }
    where
      after : (p : Outcome A × World) → I p.1.calls → I (unwind_throw destroy p).1.calls
      after (ok a, w) h = h
      after (throw e, w) h = r w h
      after (undefined, w) h = h

  -- A call that may be made wherever this holds.
  abbrev pub Allows : Call → Type 0
  Allows c = (calls : List Call) → I calls → I (c ∷ calls)

  pub emit-Keeps : (c : Call) → Allows c → Keeps I (emit c)
  emit-Keeps c h = record { at = λ w. h w.calls }

  pub call_int-Keeps : (pf : Platform) (c : Call) → Allows c → Keeps I (call_int pf c)
  call_int-Keeps pf c h = record { at = λ w. h w.calls }

  pub call_ptr-Keeps : (pf : Platform) (c : Call) → Allows c → Keeps I (call_ptr pf c)
  call_ptr-Keeps pf c h = record { at = λ w. h w.calls }
