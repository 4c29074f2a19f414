-- ===== src/World.antt =====
-- The world that the classes of src/ act on, and the monad of their methods.
--
-- libevent and the operating system are not part of the repository. Each call of them that has an
-- effect is a `Call`, kept in the order made, latest first, and what a call or a getter returns is
-- a parameter (`Platform`): a function of the calls made before it and of its arguments. A pointer
-- is a number, NULL is 0.
pub mod Calls
pub mod External
pub mod Count
pub mod Yields
pub mod Objects
pub mod Keeps
use easy_http.Prelude.{ℕ, ◌+◌, ◌==◌, Bool, true, false, List, ◌∷◌, if◌then◌else◌}
use easy_http.Prelude.Int.{ℤ}
use easy_http.Bytes.{Bytes}
use easy_http.Outcome.{
  Exception, Outcome, ok, throw, undefined, foreign, runtime_error, invalid_argument, out_of_range,
  regex_error,
}
use Calls.{Call}
use External.{Platform}

-- `CallBackContainer` of src/request_base.cpp: shared by all copies of a request.
pub record Container : Type 0 where
  pub is_complete : Bool
  pub e_con : ℕ
  pub response_handler : ℕ

pub record World : Type 0 where
  pub calls : List Call
  pub containers : ℕ → Container
  pub next_container : ℕ

abbrev pub M : Type 0 → Type 0
M A = World → Outcome A × World

-- The rest of a method after a call that ended as given.
abbrev pub continue : {A B : Type 0} → (A → M B) → Outcome A × World → Outcome B × World
continue f (ok a, w) = f a w
continue f (throw e, w) = (throw e, w)
continue f (undefined, w) = (undefined, w)

infixl 5 ◌>>=◌ ◌>>◌
abbrev pub ◌>>=◌ : {A B : Type 0} → M A → (A → M B) → M B
◌>>=◌ m f w = continue f (m w)

abbrev pub ◌>>◌ : {A B : Type 0} → M A → M B → M B
m >> k = m >>= λ _. k

abbrev pub pure : {A : Type 0} → A → M A
pure a w = (ok a, w)

abbrev pub raise : {A : Type 0} → Exception → M A
raise e w = (throw e, w)

abbrev pub undefined_behaviour : {A : Type 0} → M A
undefined_behaviour w = (undefined, w)

-- A getter: what it returns depends on the calls made so far.
abbrev pub ask : {A : Type 0} → (List Call → A) → M A
ask f w = (ok (f w.calls), w)

-- Makes a call whose result is not used.
abbrev pub emit : Call → M (Unit {0})
emit c w = (ok tt, record w { calls = c ∷ w.calls })

-- Makes a call and reads the `int` or the pointer that it returns.
abbrev pub call_int : Platform → Call → M ℤ
call_int pf c w = (ok (pf.answer w.calls c), record w { calls = c ∷ w.calls })

abbrev pub call_ptr : Platform → Call → M ℕ
call_ptr pf c w = (ok (pf.pointer w.calls c), record w { calls = c ∷ w.calls })

-- The exceptions that `catch (const std::exception&)` takes.
abbrev pub is_std_exception : Exception → Bool
is_std_exception (foreign n) = false
is_std_exception _ = true

-- `try { m } catch (const std::exception&) { h }`, for a body that ended as given.
abbrev pub recover : {A : Type 0} → M A → Outcome A × World → Outcome A × World
recover h (ok a, w) = (ok a, w)
recover h (throw e, w) = if is_std_exception e then h w else (throw e, w)
recover h (undefined, w) = (undefined, w)

abbrev pub catch_std : {A : Type 0} → M A → M A → M A
catch_std m h w = recover h (m w)

-- What destructors do after a body that ended as given, and the body with them.
abbrev pub unwind : {A : Type 0} → (World → World) → Outcome A × World → Outcome A × World
unwind destroy (ok a, w) = (ok a, destroy w)
unwind destroy (throw e, w) = (throw e, destroy w)
unwind destroy (undefined, w) = (undefined, w)

abbrev pub finally : {A : Type 0} → (World → World) → M A → M A
finally destroy m w = unwind destroy (m w)

-- What destructors do if the body throws; if it returns, its object lives on.
abbrev pub unwind_throw : {A : Type 0} → (World → World) → Outcome A × World → Outcome A × World
unwind_throw destroy (ok a, w) = (ok a, w)
unwind_throw destroy (throw e, w) = (throw e, destroy w)
unwind_throw destroy (undefined, w) = (undefined, w)

abbrev pub on_throw : {A : Type 0} → (World → World) → M A → M A
on_throw destroy m w = unwind_throw destroy (m w)

-- Writes a container.
abbrev pub put_container : ℕ → Container → M (Unit {0})
put_container i c w = (ok tt, record w { containers = λ j. if j == i then c else w.containers j })

-- `new CallBackContainer`
abbrev pub new_container : M ℕ
new_container w = (
  ok w.next_container,
  record w {
    containers = λ j.
        if j == w.next_container
        then record { is_complete = false; e_con = 0; response_handler = 0 }
        else w.containers j;
    next_container = w.next_container + 1;
  },
)

-- A call of a pure function that may throw.
abbrev pub lift : {A : Type 0} → Outcome A → M A
lift r w = (r, w)
