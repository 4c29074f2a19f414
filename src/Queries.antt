-- ===== src/Queries.antt =====
-- Query strings: `RequestBase::Queries` of src/request_base.cpp, and the query that
-- `Request::PushParam` of src/request.cpp builds. What evhttp_uri_get_query gives for a URI that is
-- NULL is left to the platform.
pub mod Matches
pub mod Values
pub mod Texts
pub mod RoundTrip
pub mod Reference
pub mod Meaning
pub mod Reorder
use easy_http.Prelude.{
  ℕ, zero, suc, ◌-◌, List, [], ◌∷◌, ◌++◌, Option, none, some, Bool, true, false, ◌&&◌, ◌||◌, ltb,
  ◌==◌, length, take, drop, if◌then◌else◌,
}
use easy_http.Bytes.{Bytes, text, same, c_str, is_empty}
use easy_http.Outcome.{Outcome, ok, undefined}
use easy_http.ParamList.{ParamList, find, insert}
use easy_http.World.{World, M, ◌>>=◌, pure, ask}
use easy_http.World.External.{Platform}

-- The class `[^&=]` of the pattern "([^&=]+)=([^&=]*)".
abbrev pub is_word : ℕ → Bool
is_word c = elim (c == b'&') [
  | true ↦ false
  | false ↦ elim (c == b'=') [ true ↦ false | false ↦ true ]
]

-- The longest run of such bytes, and what follows it.
unfoldable pub span : Bytes → Bytes × Bytes
span [] = ([], [])
span (c ∷ s) = let (run, rest) = span s in if is_word c then (c ∷ run, rest) else ([], c ∷ s)

abbrev after_value : Bytes → Bytes × Bytes → Option (Bytes × Bytes × Bytes)
after_value key (value, rest) = some (key, value, rest)

abbrev after_key : Bytes × Bytes → Option (Bytes × Bytes × Bytes)
after_key ([], rest) = none
after_key (k ∷ key, []) = none
after_key (k ∷ key, c ∷ rest) = if c == b'=' then after_value (k ∷ key) (span rest) else none

-- A match of the pattern that begins at the front of the text: its two groups and the rest. The
-- runs are as long as can be; a shorter first run is never followed by '='.
unfoldable pub match_at : Bytes → Option (Bytes × Bytes × Bytes)
unfolding span
match_at s = after_key (span s)

-- The matches that std::sregex_iterator visits, from left to right. A match is not empty, so the
-- fuel `length s + 1` suffices.
unfoldable pub matches_fuel : ℕ → Bytes → List (Bytes × Bytes)
matches_fuel zero s = []
matches_fuel (suc fuel) s = elim (match_at s) [
  | some (key, value, rest) ↦ (key, value) ∷ matches_fuel fuel rest
  | none ↦ elim s [ [] ↦ [] | c ∷ rest ↦ matches_fuel fuel rest ]
]

unfoldable pub matches : Bytes → List (Bytes × Bytes)
matches s = matches_fuel (suc (length s)) s

-- `key.size() > 2 && key.substr(key.size() - 2) == "[]"`
unfoldable pub is_array : Bytes → Bool
is_array key = ltb 2 (length key) && same (drop (length key - 2) key) (text "[]")

abbrev append_value : Bytes → Bytes → Option Bytes → ParamList → ParamList
append_value key value (some old) list = insert key (old ++ (b',' ∷ value)) list
append_value key value none list = insert key value list

-- One round of the loop: `list` after the decoded key and value.
unfoldable pub add_param : Bytes → Bytes → ParamList → ParamList
add_param key value list =
    if is_array key
    then (let name = take (length key - 2) key in append_value name value (find name list) list)
    else insert key value list

module _ (pf : Platform) where
  -- `std::string key(k)` for what evhttp_uridecode returns: undefined for NULL, else up to a NUL.
  unfoldable pub decode : Bytes → Outcome Bytes
  decode s = elim (pf.uridecode (c_str s) true) [ none ↦ undefined | some d ↦ ok (c_str d) ]

  -- The loop over the matches.
  unfoldable pub add_matches : ParamList → List (Bytes × Bytes) → Outcome ParamList
  add_matches list [] = ok list
  add_matches list ((k, v) ∷ ms) = elim (decode k) [
    | ok key ↦ elim (decode v) [
      | ok value ↦ add_matches (add_param key value list) ms
      | _ ↦ undefined
    ]
    | _ ↦ undefined
  ]

  -- The list for a query string; `none` is a URI with no query.
  unfoldable pub parse_query : Option Bytes → Outcome ParamList
  parse_query none = ok []
  parse_query (some query) = add_matches [] (matches query)

  -- Queries() of a request with the given `e_uri_`.
  unfoldable pub queries : ℕ → M ParamList
  queries uri w = (parse_query (pf.uri_query w.calls uri), w)

  -- `string(k)` for what evhttp_uriencode returns.
  unfoldable pub encode : Bytes → Outcome Bytes
  encode s = elim (pf.uriencode s) [ none ↦ undefined | some e ↦ ok (c_str e) ]

  -- The loop of PushParam: `params_str` after the parameters that are left.
  unfoldable pub render : Bytes → ParamList → Outcome Bytes
  render params_str [] = ok params_str
  render params_str ((key, value) ∷ params) = elim (encode key) [
    | ok k ↦ elim (encode value) [
      | ok v ↦
          render
            (params_str ++ ((if is_empty params_str then [] else text "&") ++ (k ++ (b'=' ∷ v))))
            params
      | _ ↦ undefined
    ]
    | _ ↦ undefined
  ]
