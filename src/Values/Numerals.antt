-- ===== src/Values/Numerals.antt =====
-- What the number conversions read.
use native.Mathlib.Nat.{pow-suc, add-mul, mul_assoc, mul_comm, add_assoc}
use easy_http.Prelude.{
  ℕ, ◌+◌, ◌-◌, ◌*◌, ◌^◌, ◌<◌, ◌≡◌, refl, ◌∙◌, append-nil, ap, arith, List, [], ◌∷◌, ◌++◌, map, some,
  Bool, true, false, length, All, ◌==◌, if◌then◌else◌,
}
use easy_http.Prelude.Int.{ℤ, pos, sub_ℕ}
use easy_http.Bytes.{Bytes}
use easy_http.Outcome.{Outcome, ok}
use easy_http.Values.{
  is_digit, is_space, read_digits, read_unsigned, read_integer, fits, stoi, comma_fields, stoi_all,
  get_val, ints,
}

-- The number that digits stand for, each at its place.
unfoldable pub place_value : List ℕ → ℕ
place_value [] = 0
place_value (d ∷ ds) = d * 10 ^ length ds + place_value ds

-- The digits as characters.
abbrev pub numeral : List ℕ → Bytes
numeral ds = map (λ d. b'0' + d) ds

abbrev pub IsDigits : List ℕ → Type 0
IsDigits ds = All (λ d. d < 10) ds

-- The text does not go on with a digit.
abbrev pub Stops : Bytes → Type 0
Stops [] = Unit
Stops (c ∷ s) = is_digit c ≡ false

horner : (n d p q : ℕ) → (n * 10 + d) * p + q ≡ n * (p * 10) + (d * p + q)
horner n d p q = simp (add-mul, mul_assoc, mul_comm 10 p, add_assoc)

read_digits-numeral :
    (n : ℕ) (ds : List ℕ) (rest : Bytes)
    → IsDigits ds
    → Stops rest
    → read_digits n (numeral ds ++ rest) ≡ n * 10 ^ length ds + place_value ds
unfolding read_digits place_value
read_digits-numeral n [] [] h k = omega arith
read_digits-numeral n [] (c ∷ rest) h k = ground arith
read_digits-numeral n (d ∷ ds) rest h k =
    let digit : is_digit (b'0' + d) ≡ true = ground arith in
    let value : b'0' + d - b'0' ≡ d = omega arith in
    rw (digit, value, read_digits-numeral (n * 10 + d) ds rest h.1 k)
      (rw pow-suc (horner n d (10 ^ length ds) (place_value ds)))

-- The blanks that `stoi` skips.
abbrev pub IsBlank : Bytes → Type 0
IsBlank s = All (λ c. is_space c ≡ true) s

read_unsigned-numeral :
    (d : ℕ) (ds : List ℕ) (rest : Bytes)
    → IsDigits (d ∷ ds)
    → Stops rest
    → read_unsigned (numeral (d ∷ ds) ++ rest) ≡ some (place_value (d ∷ ds))
unfolding read_unsigned
read_unsigned-numeral d ds rest h k =
    let digit : is_digit (b'0' + d) ≡ true = ground arith in
    rw (digit, read_digits-numeral 0 (d ∷ ds) rest h k) (ap some (omega arith))

-- The text of a signed number.
abbrev pub signed : Bool → Bytes → Bytes
signed negative s = if negative then b'-' ∷ s else s

abbrev pub sign : Bool → ℕ → ℤ
sign negative n = if negative then sub_ℕ 0 n else pos n

pub read_integer-signed :
    (negative : Bool) (d : ℕ) (ds : List ℕ) (rest : Bytes)
    → IsDigits (d ∷ ds)
    → Stops rest
    → read_integer (signed negative (numeral (d ∷ ds) ++ rest))
      ≡ some (sign negative (place_value (d ∷ ds)))
unfolding read_integer
read_integer-signed true d ds rest h k = rw (read_unsigned-numeral d ds rest h k)
read_integer-signed false d ds rest h k =
    let plain : (is_space (b'0' + d) ≡ false)
        × ((b'0' + d == b'-') ≡ false)
        × ((b'0' + d == b'+') ≡ false) =
      (ground arith, ground arith, ground arith) in
    rw (plain.0, plain.1, plain.2, read_unsigned-numeral d ds rest h k)

pub read_integer-blank :
    (blank s : Bytes) → IsBlank blank → read_integer (blank ++ s) ≡ read_integer s
unfolding read_integer
read_integer-blank [] s h = refl
read_integer-blank (c ∷ blank) s h = rw h.0 (read_integer-blank blank s h.1)

-- `stoi` reads the number that an optional sign and digits stand for, past blanks and up to the
-- first byte that is no digit, if it lies in the range of `int`.
pub stoi-numeral :
    (blank : Bytes) (negative : Bool) (d : ℕ) (ds : List ℕ) (rest : Bytes)
    → IsBlank blank
    → IsDigits (d ∷ ds)
    → Stops rest
    → fits 31 (sign negative (place_value (d ∷ ds))) ≡ true
    → stoi (blank ++ signed negative (numeral (d ∷ ds) ++ rest))
      ≡ ok (sign negative (place_value (d ∷ ds)))
unfolding stoi
stoi-numeral blank negative d ds rest b h k f =
    let e =
      read_integer-blank blank (signed negative (numeral (d ∷ ds) ++ rest)) b
      ∙ read_integer-signed negative d ds rest h k in
    rw (e, stoi, f)

-- Numerals with commas between them.
pub data Item : Type 0 where
  item : (negative : Bool) (d : ℕ) (ds : List ℕ) → Item

abbrev pub item_text : Item → Bytes
item_text (item negative d ds) = signed negative (numeral (d ∷ ds))

abbrev pub item_value : Item → ℤ
item_value (item negative d ds) = sign negative (place_value (d ∷ ds))

abbrev pub IsInt : Item → Type 0
IsInt (item negative d ds) =
    IsDigits (d ∷ ds) × (fits 31 (sign negative (place_value (d ∷ ds))) ≡ true)

-- The texts with commas between them.
unfoldable pub join : List Bytes → Bytes
join [] = []
join (s ∷ []) = s
join (s ∷ t ∷ ss) = s ++ b',' ∷ join (t ∷ ss)

abbrev NoComma : Bytes → Type 0
NoComma s = All (λ c. (c == b',') ≡ false) s

NoComma-numeral : (ds : List ℕ) → IsDigits ds → NoComma (numeral ds)
NoComma-numeral [] h = tt
NoComma-numeral (d ∷ ds) h = (ground arith, NoComma-numeral ds h.1)

NoComma-item : (i : Item) → IsInt i → NoComma (item_text i)
NoComma-item (item true d ds) h = (refl, NoComma-numeral (d ∷ ds) h.0)
NoComma-item (item false d ds) h = NoComma-numeral (d ∷ ds) h.0

comma_fields-last : (s : Bytes) → NoComma s → comma_fields s ≡ s ∷ []
unfolding comma_fields
comma_fields-last [] h = refl
comma_fields-last (c ∷ s) h = rw (h.0, comma_fields-last s h.1)

comma_fields-append : (s r : Bytes) → NoComma s → comma_fields (s ++ b',' ∷ r) ≡ s ∷ comma_fields r
unfolding comma_fields
comma_fields-append [] r h = refl
comma_fields-append (c ∷ s) r h = rw (h.0, comma_fields-append s r h.1)

comma_fields-join :
    (i : Item) (is : List Item)
    → All IsInt (i ∷ is)
    → comma_fields (join (map item_text (i ∷ is))) ≡ map item_text (i ∷ is)
unfolding join
comma_fields-join i [] h = comma_fields-last (item_text i) (NoComma-item i h.0)
comma_fields-join i (j ∷ is) h =
    comma_fields-append (item_text i) (join (map item_text (j ∷ is))) (NoComma-item i h.0)
    ∙ ap (λ t. item_text i ∷ t) (comma_fields-join j is h.1)

stoi-item : (i : Item) → IsInt i → stoi (item_text i) ≡ ok (item_value i)
stoi-item (item negative d ds) h = rw append-nil at (stoi-numeral [] negative d ds [] tt h.0 tt h.1)

stoi_all-items :
    (is : List Item) → All IsInt is → stoi_all (map item_text is) ≡ ok (map item_value is)
unfolding stoi_all
stoi_all-items [] h = refl
stoi_all-items (i ∷ is) h = rw (stoi-item i h.0, stoi_all-items is h.1)

-- `GetVal<vector<int>>` reads back the values of type `int` whose decimal numerals, at least one,
-- stand between commas.
pub get_val-join :
    (stod : Bytes → Outcome ℕ) (i : Item) (is : List Item)
    → All IsInt (i ∷ is)
    → get_val stod ints (join (map item_text (i ∷ is))) ≡ ok (map item_value (i ∷ is))
unfolding get_val
get_val-join stod i is h = rw (comma_fields-join i is h) (stoi_all-items (i ∷ is) h)
