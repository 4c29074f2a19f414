-- ===== src/ParamList/Extensionality.antt =====
-- Two maps that hold the same under every key are the same.
use mathlib.Core.Path.{subst}
use easy_http.Prelude.{◌≡◌, ◌∙◌, refl, sym, ap, [], ◌∷◌, Option, none, some, Ordering, arith}
use easy_http.Bytes.{Bytes, lex}
use easy_http.Bytes.Order.{lex_refl, eq_of_lex, lex_flip', lex_trans}
use easy_http.ParamList.{ParamList, find}
use easy_http.ParamList.Laws.{Above, IsSorted}

Above-below : (j k : Bytes) (m : ParamList) → lex j k ≡ Ordering.lt → Above k m → Above j m
Above-below j k [] h a = tt
Above-below j k ((i, w) ∷ m) h a = lex_trans j k i h a

find-Above : (k : Bytes) (m : ParamList) → IsSorted m → Above k m → find k m ≡ none
unfolding find
find-Above k [] s a = refl
find-Above k ((j, w) ∷ m) s a = ground (arith, find-Above k m s.1 (Above-below k j m a s.0))

find-head : (k v : Bytes) (m : ParamList) → find k ((k, v) ∷ m) ≡ some v
unfolding find
find-head k v m = ground (arith, lex_refl k)

tails_agree :
    (k v : Bytes) (m n : ParamList)
    → IsSorted ((k, v) ∷ m)
    → IsSorted ((k, v) ∷ n)
    → ((j : Bytes) → find j ((k, v) ∷ m) ≡ find j ((k, v) ∷ n))
    → (j : Bytes) → find j m ≡ find j n
unfolding find
tails_agree k v m n s t h j =
    ground (arith, h j, eq_of_lex j k, find-Above k m s.1 s.0, find-Above k n t.1 t.0)

some_ne_none : {A : Type 0} {a : A} {P : Type 0} → ◌≡◌ {A = Option A} none (some a) → P
some_ne_none e = cc

-- The first keys are compared, and where they are the same the tails are.
agree-cons :
    (i v j w : Bytes) (m n : ParamList) (o : Ordering)
    → lex i j ≡ o
    → IsSorted ((i, v) ∷ m)
    → IsSorted ((j, w) ∷ n)
    → ((k : Bytes) → find k ((i, v) ∷ m) ≡ find k ((j, w) ∷ n))
    → (((k : Bytes) → find k m ≡ find k n) → m ≡ n)
    → (i, v) ∷ m ≡ (j, w) ∷ n
agree-cons i v j w m n Ordering.lt o s t h tails =
    some_ne_none (sym (find-Above i ((j, w) ∷ n) t o) ∙ sym (h i) ∙ find-head i v m)
agree-cons i v j w m n Ordering.gt o s t h tails =
    some_ne_none (sym (find-Above j ((i, v) ∷ m) s (lex_flip' i j o)) ∙ h j ∙ find-head j w n)
agree-cons i v j w m n Ordering.eq o s t h tails =
    let key : i ≡ j = eq_of_lex i j o in
    let found : find i ((j, w) ∷ n) ≡ some v = sym (h i) ∙ find-head i v m in
    let found' : find i ((j, w) ∷ n) ≡ some w = rw key (find-head j w n) in
    let value : v ≡ w = cc in
    let t' : IsSorted ((i, v) ∷ n) = subst (λ k. Above k n × IsSorted n) (sym key) t in
    let entry : ◌≡◌ {A = Bytes × Bytes} (j, w) (i, v) = cc in
    let same_tail : m ≡ n =
      tails (tails_agree i v m n s t' (λ k. h k ∙ ap (λ p. find k (p ∷ n)) entry)) in
    cc

pub find-injective :
    (m n : ParamList) → IsSorted m → IsSorted n → ((k : Bytes) → find k m ≡ find k n) → m ≡ n
unfolding find
find-injective [] [] s t h = refl
find-injective [] ((j, w) ∷ n) s t h = some_ne_none (h j ∙ find-head j w n)
find-injective ((i, v) ∷ m) [] s t h = some_ne_none (sym (h i) ∙ find-head i v m)
find-injective ((i, v) ∷ m) ((j, w) ∷ n) s t h =
    agree-cons i v j w m n (lex i j) refl s t h (find-injective m n s.1 t.1)
