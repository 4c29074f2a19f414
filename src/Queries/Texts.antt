-- ===== src/Queries/Texts.antt =====
-- The texts of queries: C texts, encoded texts, and what is supposed of the encoding.
use easy_http.Prelude.{
  ℕ, ◌≡◌, refl, arith, [], ◌∷◌, some, Bool, true, false, All, ◌||◌, ◌&&◌, leb, ◌==◌,
}
use easy_http.Bytes.{Bytes, c_str, is_empty}
use easy_http.Values.{is_digit}
use easy_http.World.External.{Platform}
use easy_http.Queries.{is_array}
use easy_http.Queries.Matches.{IsWord}

-- A text with no NUL, which C functions see whole.
abbrev pub IsCText : Bytes → Type 0
IsCText s = All (λ c. (c == 0) ≡ false) s

pub c_str_whole : (s : Bytes) → IsCText s → c_str s ≡ s
unfolding c_str
c_str_whole [] h = refl
c_str_whole (c ∷ s) h = rw (h.0, c_str_whole s h.1)

-- An unreserved character of RFC 3986, or '%'.
abbrev pub is_plain : ℕ → Bool
is_plain c =
    is_digit c
    || leb b'A' c && leb c b'Z'
    || leb b'a' c && leb c b'z'
    || c == b'-'
    || c == b'.'
    || c == b'_'
    || c == b'~'
    || c == b'%'

-- One of those, or a byte that separates keys, values and parameters.
abbrev pub is_query_byte : ℕ → Bool
is_query_byte c = is_plain c || c == b'=' || c == b'&'

abbrev pub IsPlain : Bytes → Type 0
IsPlain s = All (λ c. is_plain c ≡ true) s

abbrev pub IsQueryText : Bytes → Type 0
IsQueryText s = All (λ c. is_query_byte c ≡ true) s

pub IsPlain-IsWord : (s : Bytes) → IsPlain s → IsWord s
IsPlain-IsWord [] h = tt
IsPlain-IsWord (c ∷ s) h = (ground arith, IsPlain-IsWord s h.1)

pub IsPlain-IsQueryText : (s : Bytes) → IsPlain s → IsQueryText s
IsPlain-IsQueryText [] h = tt
IsPlain-IsQueryText (c ∷ s) h = (ground arith, IsPlain-IsQueryText s h.1)

pub IsQueryText-IsCText : (s : Bytes) → IsQueryText s → IsCText s
IsQueryText-IsCText [] h = tt
IsQueryText-IsCText (c ∷ s) h = (ground arith, IsQueryText-IsCText s h.1)

-- What libevent documents of evhttp_uriencode and evhttp_uridecode: the encoded text has unreserved
-- characters and '%' only, it is empty just for the empty text, and decoding gives the text back.
pub record IsCodec (pf : Platform) (encoded : Bytes → Bytes) : Type 0 where
  pub encodes : (s : Bytes) → IsCText s → pf.uriencode s ≡ some (encoded s)
  pub decodes : (s : Bytes) → IsCText s → pf.uridecode (encoded s) true ≡ some s
  pub is_plain_text : (s : Bytes) → IsCText s → IsPlain (encoded s)
  pub keeps_nonempty : (s : Bytes) → IsCText s → is_empty s ≡ false → is_empty (encoded s) ≡ false

-- A parameter that comes back as it was: the key is neither empty nor marked as an array.
pub record IsParam (p : Bytes × Bytes) : Type 0 where
  pub key_text : IsCText p.0
  pub value_text : IsCText p.1
  pub key_nonempty : is_empty p.0 ≡ false
  pub key_plain : is_array p.0 ≡ false
