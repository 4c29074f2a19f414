-- ===== src/Outcome.antt =====
-- How a function of the source ends: with a value, by an exception, or in undefined behaviour.
use easy_http.Prelude.{ℕ}
use easy_http.Bytes.{Bytes}

-- What a `throw` carries. `foreign` is a value whose type does not derive from std::exception.
pub data Exception : Type 0 where
  runtime_error invalid_argument out_of_range regex_error : Bytes → Exception
  bad_function_call : Exception
  foreign : ℕ → Exception

-- How a method ends. `undefined` is undefined behaviour of C++, such as a std::string made of NULL.
pub data Outcome {ℓ} (A : Type ℓ) : Type ℓ where
  ok : A → Outcome A
  throw : Exception → Outcome A
  undefined : Outcome A

-- The rest of a function after a call that may throw.
abbrev pub and_then : {A B : Type 0} → Outcome A → (A → Outcome B) → Outcome B
and_then (ok a) f = f a
and_then (throw e) f = throw e
and_then undefined f = undefined
