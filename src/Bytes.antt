-- ===== src/Bytes.antt =====
-- `std::string` as a list of bytes: comparison, C strings, and the text of literals.
pub mod Order
use Prim.Native.Char.{code}
use easy_http.Prelude.{
  ℕ, String, List, [], ◌∷◌, Bool, true, false, compare, Ordering, ◌==◌, if◌then◌else◌,
}

abbrev pub Bytes : Type 0
Bytes = List ℕ

-- The bytes of a literal of the source, all of which are ASCII.
abbrev pub text : String → Bytes
text String.[] = []
text (String.◌∷◌ c s) = code c ∷ text s

-- std::string::compare: lexicographic, by unsigned bytes.
unfoldable pub lex : Bytes → Bytes → Ordering
lex [] [] = Ordering.eq
lex [] (y ∷ ys) = Ordering.lt
lex (x ∷ xs) [] = Ordering.gt
lex (x ∷ xs) (y ∷ ys) = elim (compare x y) [
  | Ordering.lt ↦ Ordering.lt
  | Ordering.eq ↦ lex xs ys
  | Ordering.gt ↦ Ordering.gt
]

abbrev pub is_eq : Ordering → Bool
is_eq Ordering.eq = true
is_eq _ = false

-- operator== of two strings.
unfoldable pub same : Bytes → Bytes → Bool
unfolding lex
same a b = is_eq (lex a b)

-- What a C function sees of a string that it is given by `c_str()`, and what `std::string(p)` reads
-- back: the bytes before the first NUL.
unfoldable pub c_str : Bytes → Bytes
c_str [] = []
c_str (x ∷ xs) = if x == 0 then [] else x ∷ c_str xs

-- std::string::empty
abbrev pub is_empty : Bytes → Bool
is_empty [] = true
is_empty (x ∷ xs) = false
