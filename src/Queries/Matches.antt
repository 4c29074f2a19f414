-- ===== src/Queries/Matches.antt =====
-- The iteration over the matches: fuel, and the matches of a query that is written out.
use easy_http.Prelude.{
  ℕ, zero, suc, ◌+◌, ◌<◌, ◌≡◌, refl, ap, arith, [], ◌∷◌, ◌++◌, none, some, true, false, length, All,
  Option-cases, inl, inr,
}
use easy_http.Bytes.{Bytes}
use easy_http.Queries.{after_key, is_word, span, match_at, matches_fuel, matches}

span_le : (s : Bytes) → length (span s).0 + length (span s).1 ≡ length s
unfolding span
span_le [] = omega arith
span_le (c ∷ s) = ground (arith, span_le s)

after_key_shorter :
    (run after : Bytes) {key value rest : Bytes}
    → after_key (run, after) ≡ some (key, value, rest)
    → length rest < length run + length after
after_key_shorter [] after h = cc
after_key_shorter (k ∷ ks) [] h = cc
after_key_shorter (k ∷ ks) (c ∷ s) h = ground (arith, span_le s)

pub match_at_shorter :
    (s : Bytes) {key value rest : Bytes}
    → match_at s ≡ some (key, value, rest)
    → length rest < length s
unfolding match_at
match_at_shorter s h = omega (arith, span_le s, after_key_shorter (span s).0 (span s).1 h)

-- Any two amounts of fuel above the length of the text give the same matches.
matches_fuel_enough :
    (f g : ℕ) (s : Bytes) → length s < f → length s < g → matches_fuel f s ≡ matches_fuel g s
unfolding matches_fuel match_at
matches_fuel_enough zero g s h k = absurd (omega arith)
matches_fuel_enough (suc f) zero s h k = absurd (omega arith)
matches_fuel_enough (suc f) (suc g) [] h k = refl
matches_fuel_enough (suc f) (suc g) (c ∷ s) h k = elim (Option-cases (match_at (c ∷ s))) [
  | inl e ↦ rw (e, matches_fuel) (matches_fuel_enough f g s (omega arith) (omega arith))
  | inr (m, e) ↦
      let shorter = match_at_shorter (c ∷ s) e in
      rw (e, matches_fuel)
        (ap (λ l. (m.0, m.1) ∷ l) (matches_fuel_enough f g m.2 (omega arith) (omega arith)))
]

-- A match at the front comes first, and the search goes on behind it.
pub matches-match :
    (s : Bytes) {key value rest : Bytes}
    → match_at s ≡ some (key, value, rest)
    → matches s ≡ (key, value) ∷ matches rest
unfolding matches matches_fuel
matches-match s {key} {value} {rest} e =
    let shorter = match_at_shorter s e in
    rw (e, matches_fuel)
      (ap (λ l. (key, value) ∷ l)
        (matches_fuel_enough (length s) (suc (length rest)) rest shorter (omega arith)))

-- Where no match begins, the search goes on one byte later.
pub matches-skip : (c : ℕ) (s : Bytes) → match_at (c ∷ s) ≡ none → matches (c ∷ s) ≡ matches s
unfolding matches matches_fuel
matches-skip c s e = rw (e, matches_fuel)

abbrev pub IsWord : Bytes → Type 0
IsWord s = All (λ c. is_word c ≡ true) s

-- What stands behind a run: nothing, or a byte that is not in the class.
abbrev pub Ends : Bytes → Type 0
Ends [] = Unit
Ends (c ∷ s) = is_word c ≡ false

pub span-append : (run rest : Bytes) → IsWord run → Ends rest → span (run ++ rest) ≡ (run, rest)
unfolding span
span-append [] [] h k = refl
span-append [] (c ∷ s) h k = rw k
span-append (c ∷ run) rest h k = rw (h.0, span-append run rest h.1 k)

-- A pair `key=value` at the front is the first match.
pub match_at-pair :
    (c : ℕ) (key value rest : Bytes)
    → IsWord (c ∷ key)
    → IsWord value
    → Ends rest
    → match_at ((c ∷ key) ++ (b'=' ∷ (value ++ rest))) ≡ some (c ∷ key, value, rest)
unfolding match_at
match_at-pair c key value rest h k e =
    rw (span-append (c ∷ key) (b'=' ∷ (value ++ rest)) h refl, span-append value rest k e)

-- No match begins at '&'.
pub match_at-ampersand : (s : Bytes) → match_at (b'&' ∷ s) ≡ none
unfolding match_at span
match_at-ampersand s = refl

pub matches-nil : matches [] ≡ []
unfolding matches matches_fuel match_at
matches-nil = refl
