-- ===== src/World/Count.antt =====
-- Counting calls, and methods that make none of the counted calls.
use easy_http.Prelude.{
  ℕ, ◌+◌, List, [], ◌∷◌, Bool, true, false, ◌≡◌, arith, refl, ◌∙◌, if◌then◌else◌,
}
use easy_http.Outcome.{Outcome, ok, throw, undefined}
use easy_http.World.{World, M, ◌>>=◌, continue, pure, emit, call_int, call_ptr}
use easy_http.World.Calls.{Call}
use easy_http.World.External.{Platform}

-- What the calls count for together.
unfoldable pub total : (Call → ℕ) → List Call → ℕ
total count [] = 0
total count (c ∷ calls) = count c + total count calls

-- However the method ends, the total is as before.
pub record IsSilent (count : Call → ℕ) {A : Type 0} (m : M A) : Type 0 where
  pub at : (w : World) → total count (m w).1.calls ≡ total count w.calls

module _ (count : Call → ℕ) where
  pub bind-IsSilent :
      {A B : Type 0} (m : M A) (f : A → M B)
      → IsSilent count m
      → ((a : A) → IsSilent count (f a))
      → IsSilent count (m >>= f)
  bind-IsSilent {A} {B} m f q r = record { at = λ w. after (m w) ∙ q.at w }
    where
      after : (p : Outcome A × World) → total count (continue f p).1.calls ≡ total count p.1.calls
      after (ok a, w) = (r a).at w
      after (throw e, w) = refl
      after (undefined, w) = refl

  pub pure-IsSilent : {A : Type 0} (a : A) → IsSilent count (pure a)
  pure-IsSilent a = record { at = λ w. refl }

  pub if-IsSilent :
      {A : Type 0} (b : Bool) (m n : M A)
      → IsSilent count m
      → IsSilent count n
      → IsSilent count (if b then m else n)
  if-IsSilent true m n q r = q
  if-IsSilent false m n q r = r

  pub emit-IsSilent : (c : Call) → count c ≡ 0 → IsSilent count (emit c)
  unfolding total
  emit-IsSilent c h = record { at = λ w. omega arith }

  pub call_int-IsSilent : (pf : Platform) (c : Call) → count c ≡ 0 → IsSilent count (call_int pf c)
  unfolding total
  call_int-IsSilent pf c h = record { at = λ w. omega arith }

  pub call_ptr-IsSilent : (pf : Platform) (c : Call) → count c ≡ 0 → IsSilent count (call_ptr pf c)
  unfolding total
  call_ptr-IsSilent pf c h = record { at = λ w. omega arith }
