-- ===== src/Queries/Reference.antt =====
-- The matches of a query, by splitting: the parameters at '&', and the fields of each at '='.
pub mod Matching
use mathlib.Core.Path.{subst}
use easy_http.Prelude.{
  ℕ, zero, suc, ◌+◌, ◌<◌, ◌≡◌, ◌≢◌, refl, sym, ap, ◌∙◌, arith, List, [], ◌∷◌, ◌++◌, Option, none,
  some, Bool, true, false, length, take, ◌||◌, All, append-nil, append_assoc, Bool-cases,
  Option-cases, inl, inr, ◌==◌, if◌then◌else◌,
}
use easy_http.Bytes.{Bytes, is_empty, same, text}
use easy_http.Queries.{after_key, is_word, span, match_at, matches_fuel, matches}
use easy_http.Queries.Matches.{IsWord, Ends, match_at_shorter}

abbrev onto : Bytes → List Bytes → List Bytes
onto w [] = w ∷ []
onto w (f ∷ fs) = (w ++ f) ∷ fs

-- The texts between the bytes of one value, at least one.
unfoldable pub split : ℕ → Bytes → List Bytes
split d [] = [] ∷ []
split d (c ∷ s) = if c == d then [] ∷ split d s else onto (c ∷ []) (split d s)

-- The pairs of the fields of one parameter: a field and the next one are a pair, but an empty field
-- is passed over, and a field at the end has no value.
unfoldable pub pairs : List Bytes → List (Bytes × Bytes)
pairs [] = []
pairs (f ∷ []) = []
pairs ([] ∷ v ∷ fs) = pairs (v ∷ fs)
pairs ((c ∷ key) ∷ v ∷ fs) = (c ∷ key, v) ∷ pairs fs

unfoldable pub all_pairs : List Bytes → List (Bytes × Bytes)
all_pairs [] = []
all_pairs (param ∷ params) = pairs (split b'=' param) ++ all_pairs params

unfoldable pub split_query : Bytes → List (Bytes × Bytes)
split_query s = all_pairs (split b'&' s)

pub split-cons : (d : ℕ) (s : Bytes) → (f : Bytes) × (fs : List Bytes) × (split d s ≡ f ∷ fs)
unfolding split
split-cons d [] = ([], [], refl)
split-cons d (c ∷ s) =
    let (f, fs, e) = split-cons d s in
    elim (Bool-cases (c == d)) [ inl h ↦ ([], split d s, rw h) | inr h ↦ (c ∷ f, fs, rw (h, e)) ]

onto-onto : (c : ℕ) (w : Bytes) (fs : List Bytes) → onto (c ∷ []) (onto w fs) ≡ onto (c ∷ w) fs
onto-onto c w [] = refl
onto-onto c w (f ∷ fs) = refl

-- A text without the byte stays in front of what is split.
pub split-append :
    (d : ℕ) (w s : Bytes) → All (λ c. (c == d) ≡ false) w → split d (w ++ s) ≡ onto w (split d s)
unfolding split
split-append d [] s h = let (f, fs, e) = split-cons d s in rw e
split-append d (c ∷ w) s h = rw (h.0, split-append d w s h.1) (onto-onto c w (split d s))

split_at : (d : ℕ) (s : Bytes) → split d (d ∷ s) ≡ [] ∷ split d s
unfolding split
split_at d s = let e : (d == d) ≡ true = ground arith in rw e

pub split-separator :
    (d : ℕ) (w s : Bytes) → All (λ c. (c == d) ≡ false) w → split d (w ++ (d ∷ s)) ≡ w ∷ split d s
split-separator d w s h =
    split-append d w (d ∷ s) h ∙ rw (split_at d s) (ap (λ v. v ∷ split d s) (append-nil w))

pub word-not_ampersand : (w : Bytes) → IsWord w → All (λ c. (c == b'&') ≡ false) w
word-not_ampersand [] h = tt
word-not_ampersand (c ∷ w) h = (ground arith, word-not_ampersand w h.1)

pub word-not_equals : (w : Bytes) → IsWord w → All (λ c. (c == b'=') ≡ false) w
word-not_equals [] h = tt
word-not_equals (c ∷ w) h = (ground arith, word-not_equals w h.1)

pub span-parts : (s : Bytes) → (s ≡ (span s).0 ++ (span s).1) × IsWord (span s).0 × Ends (span s).1
unfolding span
span-parts [] = (refl, tt, tt)
span-parts (c ∷ s) = elim (Bool-cases (is_word c)) [
  | inl e ↦ let (q, word, ends) = span-parts s in rw e (ap (λ t. c ∷ t) q, (e, word), ends)
  | inr e ↦ rw e (refl, tt, e)
]

-- A match at the front, taken apart
pub record IsMatch (s key value rest : Bytes) : Type 0 where
  pub text_eq : s ≡ key ++ (b'=' ∷ (value ++ rest))
  pub key_word : IsWord key
  pub key_some : key ≢ []
  pub value_word : IsWord value
  pub rest_ends : Ends rest

abbrev IfMatch : Bytes → Option (Bytes × Bytes × Bytes) → Type 0
IfMatch s none = Unit
IfMatch s (some (key, value, rest)) = IsMatch s key value rest

after_key-IfMatch :
    (run after : Bytes) → IsWord run → IfMatch (run ++ after) (after_key (run, after))
after_key-IfMatch [] after w = tt
after_key-IfMatch (k ∷ ks) [] w = tt
after_key-IfMatch (k ∷ ks) (c ∷ s) w = elim (Bool-cases (c == b'=')) [
  | inl e ↦
      let (q, word, ends) = span-parts s in
      let equals : c ≡ b'=' = ground arith in
      rw e (record {
        text_eq = ap (λ t. k ∷ ks ++ t) (ap (λ d. d ∷ s) equals ∙ ap (λ t. b'=' ∷ t) q);
        key_word = w;
        key_some = λ h. cc;
        value_word = word;
        rest_ends = ends;
      })
  | inr e ↦ rw e tt
]

pub match_at-IsMatch :
    (s : Bytes) {key value rest : Bytes}
    → match_at s ≡ some (key, value, rest)
    → IsMatch s key value rest
unfolding match_at
match_at-IsMatch s h =
    let (q, word, ends) = span-parts s in
    subst (IfMatch s) h
      (subst (λ t. IfMatch t (match_at s)) (sym q) (after_key-IfMatch (span s).0 (span s).1 word))
