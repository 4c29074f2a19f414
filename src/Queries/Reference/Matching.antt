-- ===== src/Queries/Reference/Matching.antt =====
-- The search for matches finds what the splitting gives.
use mathlib.Core.Path.{subst}
use easy_http.Prelude.{
  ℕ, zero, suc, ◌<◌, ◌≡◌, ◌≢◌, refl, sym, ap, ◌∙◌, arith, List, [], ◌∷◌, ◌++◌, none, false, length,
  All, append-nil, Bool-cases, Option-cases, inl, inr, ◌==◌,
}
use easy_http.Bytes.{Bytes}
use easy_http.Queries.{after_key, is_word, span, match_at, matches_fuel, matches}
use easy_http.Queries.Matches.{IsWord, Ends, match_at_shorter}
use easy_http.Queries.Reference.{
  split, pairs, all_pairs, split_query, split-cons, split-append, split-separator,
  word-not_ampersand, word-not_equals, span-parts, IsMatch, match_at-IsMatch,
}

pairs-empty : (fs : List Bytes) → pairs ([] ∷ fs) ≡ pairs fs
unfolding pairs
pairs-empty [] = refl
pairs-empty (v ∷ fs) = refl

pairs-key :
    (key value : Bytes) (fs : List Bytes)
    → key ≢ []
    → pairs (key ∷ value ∷ fs) ≡ (key, value) ∷ pairs fs
unfolding pairs
pairs-key [] value fs h = absurd (h refl)
pairs-key (c ∷ key) value fs h = refl

split_query-ampersand : (s : Bytes) → split_query (b'&' ∷ s) ≡ split_query s
unfolding split_query all_pairs pairs split
split_query-ampersand s = refl

split_query-equals : (s : Bytes) → split_query (b'=' ∷ s) ≡ split_query s
unfolding split_query all_pairs split
split_query-equals s =
    let (f, fs, e) = split-cons b'&' s in
    rw e (ap (λ l. l ++ all_pairs fs) (pairs-empty (split b'=' f)))

-- What can stand behind a run.
data Tail (s : Bytes) : Type 0 where
  at_end : s ≡ [] → Tail s
  at_param : (r : Bytes) → s ≡ b'&' ∷ r → Tail s
  at_value : (r : Bytes) → s ≡ b'=' ∷ r → Tail s

Tail-of : (s : Bytes) → Ends s → Tail s
Tail-of [] h = at_end refl
Tail-of (c ∷ s) h = elim (Bool-cases (c == b'&')) [
  | inl e ↦ at_param s (let equal : c ≡ b'&' = ground arith in ap (λ d. d ∷ s) equal)
  | inr e ↦ at_value s (let equal : c ≡ b'=' = ground arith in ap (λ d. d ∷ s) equal)
]

split-word : (d : ℕ) (w : Bytes) → All (λ c. (c == d) ≡ false) w → split d w ≡ w ∷ []
unfolding split
split-word d w h = subst (λ t. split d t ≡ t ∷ []) (append-nil w) (split-append d w [] h)

-- A word has no value at the end of its parameter.
split_query-word_end : (w : Bytes) → IsWord w → split_query w ≡ []
unfolding split_query all_pairs pairs
split_query-word_end w h =
    rw (split-word b'&' w (word-not_ampersand w h), split-word b'=' w (word-not_equals w h))

split_query-word_param : (w r : Bytes) → IsWord w → split_query (w ++ (b'&' ∷ r)) ≡ split_query r
unfolding split_query all_pairs pairs
split_query-word_param w r h =
    rw (split-separator b'&' w r (word-not_ampersand w h), split-word b'=' w (word-not_equals w h))

skip-word :
    (c : ℕ) (run after : Bytes)
    → IsWord (c ∷ run)
    → Tail after
    → after_key (c ∷ run, after) ≡ none
    → split_query ((c ∷ run) ++ after) ≡ split_query (run ++ after)
skip-word c run after w (at_end e) h =
    rw (e, append-nil run) (split_query-word_end (c ∷ run) w ∙ sym (split_query-word_end run w.1))
skip-word c run after w (at_param r e) h =
    rw e (split_query-word_param (c ∷ run) r w ∙ sym (split_query-word_param run r w.1))
skip-word c run after w (at_value r e) h = let q = rw e at h in cc

split_query-skip :
    (c : ℕ) (s : Bytes) → match_at (c ∷ s) ≡ none → split_query (c ∷ s) ≡ split_query s
unfolding match_at span
split_query-skip c s h = elim (Bool-cases (is_word c)) [
  | inl e ↦
      let (q, word, ends) = span-parts s in
      subst (λ t. split_query (c ∷ t) ≡ split_query t) (sym q)
        (skip-word c (span s).0 (span s).1 (e, word) (Tail-of (span s).1 ends) (rw e at h))
  | inr e ↦ elim (Tail-of (c ∷ s) e) [
    | at_end q ↦ cc
    | at_param r q ↦
        let equal : c ≡ b'&' = cc in
        subst (λ d. split_query (d ∷ s) ≡ split_query s) (sym equal) (split_query-ampersand s)
    | at_value r q ↦
        let equal : c ≡ b'=' = cc in
        subst (λ d. split_query (d ∷ s) ≡ split_query s) (sym equal) (split_query-equals s)
  ]
]

-- The first field of what follows a value is empty.
first_field :
    (rest f : Bytes) (fs : List Bytes)
    → Tail rest
    → split b'&' rest ≡ f ∷ fs
    → (gs : List Bytes) × (split b'=' f ≡ [] ∷ gs)
unfolding split
first_field rest f fs (at_end e) h =
    let q = rw e at h in let empty : [] ≡ f = cc in ([], rw⁻¹ empty)
first_field rest f fs (at_param r e) h =
    let q = rw e at h in let empty : [] ≡ f = cc in ([], rw⁻¹ empty)
first_field rest f fs (at_value r e) h =
    let (g, gs, k) = split-cons b'&' r in
    let q = rw (e, k) at h in let first : b'=' ∷ g ≡ f = cc in (split b'=' g, rw⁻¹ first)

split_query-match :
    (s key value rest : Bytes)
    → IsMatch s key value rest
    → split_query s ≡ (key, value) ∷ split_query rest
unfolding split_query all_pairs
split_query-match s key value rest m =
    let (f, fs, e) = split-cons b'&' rest in
    let (gs, k) = first_field rest f fs (Tail-of rest m.rest_ends) e in
    rw (
      m.text_eq,
      split-append b'&' key (b'=' ∷ (value ++ rest)) (word-not_ampersand key m.key_word),
      split-append b'&' (b'=' ∷ value) rest (refl, word-not_ampersand value m.value_word),
      e,
      split-separator b'=' key (value ++ f) (word-not_equals key m.key_word),
      split-append b'=' value f (word-not_equals value m.value_word),
      k,
      append-nil value,
      pairs-key key value gs m.key_some,
      pairs-empty gs,
    )

matches_fuel-nil : (fuel : ℕ) → matches_fuel fuel [] ≡ split_query []
unfolding matches_fuel match_at span split_query all_pairs pairs split
matches_fuel-nil zero = refl
matches_fuel-nil (suc fuel) = refl

matches_fuel-split_query :
    (fuel : ℕ) (s : Bytes) → length s < fuel → matches_fuel fuel s ≡ split_query s
unfolding matches_fuel
matches_fuel-split_query zero s h = absurd (omega arith)
matches_fuel-split_query (suc fuel) [] h = matches_fuel-nil (suc fuel)
matches_fuel-split_query (suc fuel) (c ∷ s) h = elim (Option-cases (match_at (c ∷ s))) [
  | inl e ↦
      rw (e, matches_fuel, split_query-skip c s e) (matches_fuel-split_query fuel s (omega arith))
  | inr (m, e) ↦
      let shorter = match_at_shorter (c ∷ s) e in
      rw (e, matches_fuel, split_query-match (c ∷ s) m.0 m.1 m.2 (match_at-IsMatch (c ∷ s) e))
        (ap (λ l. (m.0, m.1) ∷ l) (matches_fuel-split_query fuel m.2 (omega arith)))
]

-- The pairs that the iterator over the pattern visits are those that splitting gives: the query is
-- split at every '&' and each part at every '='; from the left, a field that is not empty and the
-- field behind it are a pair, and an empty field before another is passed over.
pub matches-split_query : (s : Bytes) → matches s ≡ split_query s
unfolding matches
matches-split_query s = matches_fuel-split_query (suc (length s)) s (omega arith)
