-- ===== src/Values.antt =====
-- The value conversions of src/request_base.cpp and include/easy_http/request_base.h: `ToLower`,
-- `IsFilled` and `GetVal`, with what they use of the standard library (`tolower`, `stoi`,
-- `strtoll`, `getline`). `stod` is a parameter: a `double` is its 64 bits, which nothing here reads.
pub mod Laws
pub mod Numerals
pub mod Ranges
use easy_http.Prelude.{
  ℕ, zero, suc, ◌+◌, ◌-◌, ◌*◌, ◌^◌, List, [], ◌∷◌, map, Option, none, some, Bool, true, false, not,
  ◌&&◌, ◌||◌, leb, ltb, ◌==◌, if◌then◌else◌,
}
use easy_http.Prelude.Int.{ℤ, pos, negsuc, leb_ℤ, eq_ℤ, sub_ℕ}
use easy_http.Bytes.{Bytes, text, is_empty}
use easy_http.Outcome.{Outcome, ok, throw, undefined, invalid_argument, out_of_range, and_then}
use easy_http.ParamList.{ParamList, find}

-- std::tolower in the C locale
unfoldable pub to_lower_byte : ℕ → ℕ
to_lower_byte c = if leb b'A' c && leb c b'Z' then c + 32 else c

unfoldable pub to_lower : Bytes → Bytes
unfolding to_lower_byte
to_lower str = map to_lower_byte str

-- `list.find(key) != list.end() && !list.at(key).empty()`
unfoldable pub is_filled : ParamList → Bytes → Bool
is_filled list key = elim (find key list) [ none ↦ false | some value ↦ not (is_empty value) ]

abbrev pub is_digit : ℕ → Bool
is_digit c = leb b'0' c && leb c b'9'

-- std::isspace in the C locale
abbrev pub is_space : ℕ → Bool
is_space c = c == 32 || (leb 9 c && leb c 13)

-- The digits at the front of a text, added to a number that was read before.
unfoldable pub read_digits : ℕ → Bytes → ℕ
read_digits n [] = n
read_digits n (c ∷ s) =
    let more = read_digits (n * 10 + (c - b'0')) s in if is_digit c then more else n

-- An unsigned numeral; `none` if there is no digit.
unfoldable pub read_unsigned : Bytes → Option ℕ
read_unsigned [] = none
read_unsigned (c ∷ s) = if is_digit c then some (read_digits 0 (c ∷ s)) else none

abbrev negate : Option ℕ → Option ℤ
negate none = none
negate (some n) = some (sub_ℕ 0 n)

abbrev positive : Option ℕ → Option ℤ
positive none = none
positive (some n) = some (pos n)

-- What strtol and strtoll read in base 10, before they look at the range: blanks, a sign, digits.
unfoldable pub read_integer : Bytes → Option ℤ
read_integer [] = none
read_integer (c ∷ s) =
    let more = read_integer s in
    if is_space c
    then more
    else if c == b'-'
    then negate (read_unsigned s)
    else if c == b'+'
    then positive (read_unsigned s)
    else positive (read_unsigned (c ∷ s))

-- The ranges of `int` and of `long long`.
abbrev pub fits : ℕ → ℤ → Bool
fits bits (pos n) = ltb n (2 ^ bits)
fits bits (negsuc n) = ltb n (2 ^ bits)

-- std::stoi
unfoldable pub stoi : Bytes → Outcome ℤ
stoi str = elim (read_integer str) [
  | none ↦ throw (invalid_argument (text "stoi"))
  | some z ↦ if fits 31 z then ok z else throw (out_of_range (text "stoi"))
]

-- strtoll: 0 if there is no number, the nearest bound if it does not fit
unfoldable pub strtoll : Bytes → ℤ
strtoll str = elim (read_integer str) [
  | none ↦ pos 0
  | some z ↦
      if fits 63 z then z else elim z [ pos n ↦ pos (2 ^ 63 - 1) | negsuc n ↦ negsuc (2 ^ 63 - 1) ]
]

abbrev onto_first : ℕ → List Bytes → List Bytes
onto_first c [] = (c ∷ []) ∷ []
onto_first c (f ∷ fs) = (c ∷ f) ∷ fs

-- The texts that `getline(ss, num, ',')` yields while `ss.good()`: what lies between the commas, at
-- least one text, and an empty one after a comma at the end.
unfoldable pub comma_fields : Bytes → List Bytes
comma_fields [] = [] ∷ []
comma_fields (c ∷ s) = if c == b',' then [] ∷ comma_fields s else onto_first c (comma_fields s)

unfoldable pub stoi_all : List Bytes → Outcome (List ℤ)
stoi_all [] = ok []
stoi_all (num ∷ nums) = and_then (stoi num) (λ n. and_then (stoi_all nums) (λ ns. ok (n ∷ ns)))

-- The types at which `GetVal` is specialised.
pub data ValueType : Type 0 where
  string int double bool time ints : ValueType

abbrev pub Value : ValueType → Type 0
Value string = Bytes
Value int = ℤ
Value double = ℕ
Value bool = Bool
Value time = ℤ
Value ints = List ℤ

-- `catch (...) { return default_value; }`
abbrev or_default : {A : Type 0} → A → Outcome A → A
or_default d (ok a) = a
or_default d _ = d

abbrev or_empty : Option Bytes → Bytes
or_empty none = []
or_empty (some s) = s

module _ (stod : Bytes → Outcome ℕ) where
  -- GetVal<T>(str_value)
  unfoldable pub get_val : (t : ValueType) → Bytes → Outcome (Value t)
  get_val string str = ok str
  get_val int str = stoi str
  get_val double str = stod str
  get_val bool str = and_then (stoi str) (λ n. ok (not (eq_ℤ n (pos 0))))
  get_val time str = ok (strtoll str)
  get_val ints str = stoi_all (comma_fields str)

  -- GetVal<T>(list, key, default_value); `list.at(key)` is reached for a key that is there.
  unfoldable pub get_val_or : (t : ValueType) → ParamList → Bytes → Value t → Value t
  get_val_or t list key default_value =
      if is_filled list key
      then or_default default_value (get_val t (or_empty (find key list)))
      else default_value
