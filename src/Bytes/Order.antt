-- ===== src/Bytes/Order.antt =====
-- The order of byte strings: `lex` decides equality, and is a strict linear order.
use easy_http.Prelude.{◌≡◌, ◌≢◌, false, refl, ◌↔◌, [], ◌∷◌, true, Ordering, arith}
use easy_http.Bytes.{Bytes, lex, same}

pub lex_refl : (a : Bytes) → lex a a ≡ Ordering.eq
unfolding lex
lex_refl [] = refl
lex_refl (x ∷ xs) = ground (arith, lex_refl xs)

pub eq_of_lex : (a b : Bytes) → lex a b ≡ Ordering.eq → a ≡ b
unfolding lex
eq_of_lex [] [] h = refl
eq_of_lex [] (y ∷ ys) h = cc
eq_of_lex (x ∷ xs) [] h = cc
eq_of_lex (x ∷ xs) (y ∷ ys) h = ground (arith, eq_of_lex xs ys)

pub same_iff : (a b : Bytes) → (same a b ≡ true) ↔ (a ≡ b)
unfolding same
same_iff a b = (λ h. eq_of_lex a b (ground arith), λ e. rw (e, lex_refl b))

pub same_refl : (a : Bytes) → same a a ≡ true
same_refl a = (same_iff a a).1 refl

pub lex_flip : (a b : Bytes) → lex a b ≡ Ordering.lt → lex b a ≡ Ordering.gt
unfolding lex
lex_flip [] [] h = cc
lex_flip [] (y ∷ ys) h = refl
lex_flip (x ∷ xs) [] h = cc
lex_flip (x ∷ xs) (y ∷ ys) h = ground (arith, lex_flip xs ys)

pub lex_flip' : (a b : Bytes) → lex a b ≡ Ordering.gt → lex b a ≡ Ordering.lt
unfolding lex
lex_flip' [] [] h = cc
lex_flip' [] (y ∷ ys) h = cc
lex_flip' (x ∷ xs) [] h = refl
lex_flip' (x ∷ xs) (y ∷ ys) h = ground (arith, lex_flip' xs ys)

pub lex_trans :
    (a b c : Bytes) → lex a b ≡ Ordering.lt → lex b c ≡ Ordering.lt → lex a c ≡ Ordering.lt
unfolding lex
lex_trans [] [] c h k = cc
lex_trans [] (y ∷ ys) [] h k = cc
lex_trans [] (y ∷ ys) (z ∷ zs) h k = refl
lex_trans (x ∷ xs) [] c h k = cc
lex_trans (x ∷ xs) (y ∷ ys) [] h k = cc
lex_trans (x ∷ xs) (y ∷ ys) (z ∷ zs) h k = ground (arith, lex_trans xs ys zs)

pub ne_of_same : (a b : Bytes) → same a b ≡ false → a ≢ b
ne_of_same a b h e = cc (h, (same_iff a b).1 e)
