-- ===== src/RequestBase/Url.antt =====
-- Matching the path against a regular expression: UrlIs and UrlVars of src/request_base.cpp and
-- include/easy_http/request_base.h.
pub mod Vars
use easy_http.Prelude.{ℕ, zero, suc, List, [], ◌∷◌, ◌++◌, Bool, true, false}
use easy_http.Bytes.{Bytes, text}
use easy_http.Outcome.{Outcome, ok, throw, regex_error, and_then}
use easy_http.Values.{ValueType, Value, get_val}
use easy_http.World.{M, ◌>>=◌, lift}
use easy_http.World.External.{Platform, Matched, bad_pattern, no_match, matched}
use easy_http.RequestBase.{RequestBase}
use easy_http.RequestBase.Fields.{path}

-- A `std::tuple` of values of the given types.
abbrev pub Tuple : List ValueType → Type 0
Tuple [] = Unit
Tuple (t ∷ ts) = Value t × Tuple ts

-- `matches[index].str()`, index 0 being the first group: empty beyond the last.
unfoldable pub group : List Bytes → ℕ → Bytes
group [] index = []
group (g ∷ gs) zero = g
group (g ∷ gs) (suc index) = group gs index

-- The sub-matches after std::regex_match; none if the path does not match.
abbrev groups : Matched → Outcome (List Bytes)
groups bad_pattern = throw (regex_error (text "regex_error"))
groups no_match = ok []
groups (matched gs) = ok gs

abbrev pub is_url_match : Matched → Outcome Bool
is_url_match bad_pattern = throw (regex_error (text "regex_error"))
is_url_match no_match = ok false
is_url_match (matched gs) = ok true

-- `vars` with the groups pushed behind it, and whether the path matches.
abbrev push_groups : List Bytes → Matched → Outcome (Bool × List Bytes)
push_groups vars bad_pattern = throw (regex_error (text "regex_error"))
push_groups vars no_match = ok (false, vars)
push_groups vars (matched gs) = ok (true, vars ++ gs)

-- `std::tuple_cat(std::make_tuple(head), tail)`, whether the head is evaluated first or last.
abbrev pub both : {A B : Type 0} → Bool → Outcome A → Outcome B → Outcome (A × B)
both true head tail = and_then head (λ v. and_then tail (λ vs. ok (v, vs)))
both false head tail = and_then tail (λ vs. and_then head (λ v. ok (v, vs)))

module _ (pf : Platform) where
  -- tuple_helper: the groups from an index on, converted in the order that the compiler chose. It shows
  -- in which of several exceptions is thrown.
  unfoldable pub tuple_helper : (ts : List ValueType) → List Bytes → ℕ → Outcome (Tuple ts)
  tuple_helper [] matches index = ok tt
  tuple_helper (t ∷ ts) matches index =
      both (pf.head_first index) (get_val pf.stod t (group matches index))
        (tuple_helper ts matches (suc index))

module _ (pf : Platform) (self : RequestBase) where
  unfoldable pub url_is : Bytes → M Bool
  url_is pattern_text = do p ← path pf self; lift (is_url_match (pf.regex_match pattern_text p))

  unfoldable pub url_is_vars : Bytes → List Bytes → M (Bool × List Bytes)
  url_is_vars pattern_text vars = do
    p ← path pf self
    lift (push_groups vars (pf.regex_match pattern_text p))

  unfoldable pub url_vars : (ts : List ValueType) → Bytes → M (Tuple ts)
  url_vars ts pattern_text = do
    p ← path pf self
    gs ← lift (groups (pf.regex_match pattern_text p))
    lift (tuple_helper pf ts gs zero)
