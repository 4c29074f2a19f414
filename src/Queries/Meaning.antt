-- ===== src/Queries/Meaning.antt =====
-- What a query means: the value of each name, read from its parameters.
use mathlib.Core.Path.{subst}
use easy_http.Prelude.{
  ◌-◌, ◌≡◌, refl, ap, ◌∙◌, sym, List, [], ◌∷◌, ◌++◌, Option, none, some, true, length, take,
  if◌then◌else◌, Bool-cases, Option-cases, ◌⊎◌, inl, inr,
}
use easy_http.Bytes.{Bytes, same, c_str}
use easy_http.Bytes.Order.{same_iff}
use easy_http.Outcome.{Outcome, ok, throw, undefined, and_then}
use easy_http.ParamList.{ParamList, find}
use easy_http.ParamList.Laws.{IsSorted, find-insert, insert-IsSorted}
use easy_http.World.External.{Platform}
use easy_http.Queries.{matches, is_array, append_value, add_param, decode, add_matches, parse_query}
use easy_http.Queries.Reference.{split_query}
use easy_http.Queries.Reference.Matching.{matches-split_query}

-- The name under which a key is kept: k[] is kept as k.
unfoldable pub name_of : Bytes → Bytes
name_of key = if is_array key then take (length key - 2) key else key

abbrev joined : Bytes → Option Bytes → Bytes
joined value none = value
joined value (some old) = old ++ (b',' ∷ value)

-- The value of a name after a parameter of that name, and its value before.
unfoldable pub value_after : Bytes × Bytes → Option Bytes → Bytes
value_after (key, value) old = if is_array key then joined value old else value

-- The value of a name: a plain parameter sets it, an array parameter is joined to it.
unfoldable pub meaning : Bytes → Option Bytes → List (Bytes × Bytes) → Option Bytes
meaning name old [] = old
meaning name old (p ∷ ps) =
    meaning name (if same name (name_of p.0) then some (value_after p old) else old) ps

-- The rounds of the loop, once the texts are decoded.
unfoldable pub add_all : ParamList → List (Bytes × Bytes) → ParamList
add_all list [] = list
add_all list ((key, value) ∷ ps) = add_all (add_param key value list) ps

module _ (pf : Platform) where
  unfoldable pub decode_all : List (Bytes × Bytes) → Outcome (List (Bytes × Bytes))
  decode_all [] = ok []
  decode_all ((k, v) ∷ ms) = and_then (decode pf k) (λ key.
      and_then (decode pf v) (λ value. and_then (decode_all ms) (λ ps. ok ((key, value) ∷ ps))))

and_then_ok :
    (r : Outcome (List (Bytes × Bytes))) (p : Bytes × Bytes) (list : ParamList)
    → and_then r (λ ps. ok (add_all (add_param p.0 p.1 list) ps))
      ≡ and_then (and_then r (λ ps. ok (p ∷ ps))) (λ ps. ok (add_all list ps))
unfolding add_all
and_then_ok (ok ps) p list = refl
and_then_ok (throw e) p list = refl
and_then_ok undefined p list = refl

find-append_value :
    (name key value : Bytes) (old : Option Bytes) (list : ParamList)
    → find name (append_value key value old list)
      ≡ (if same name key then some (joined value old) else find name list)
find-append_value name key value none list = find-insert name key value list
find-append_value name key value (some o) list = find-insert name key (o ++ (b',' ∷ value)) list

joined-find :
    (name key value : Bytes) (list : ParamList)
    → (if same name key then some (joined value (find key list)) else find name list)
      ≡ (if same name key then some (joined value (find name list)) else find name list)
joined-find name key value list = elim (Bool-cases (same name key)) [
  | inl e ↦ let equal = (same_iff name key).0 e in rw equal
  | inr e ↦ rw e
]

find-add_param :
    (name key value : Bytes) (list : ParamList)
    → find name (add_param key value list) ≡ (
        if same name (name_of key)
        then some (value_after (key, value) (find name list))
        else find name list)
unfolding add_param name_of value_after
find-add_param name key value list = elim (Bool-cases (is_array key)) [
  | inl e ↦ rw e (
      find-append_value name (take (length key - 2) key) value _ list
      ∙ joined-find name (take (length key - 2) key) value list)
  | inr e ↦ rw e (find-insert name key value list)
]

append_value-IsSorted :
    (key value : Bytes) (old : Option Bytes) (list : ParamList)
    → IsSorted list
    → IsSorted (append_value key value old list)
append_value-IsSorted key value none list s = insert-IsSorted key value list s
append_value-IsSorted key value (some o) list s = insert-IsSorted key (o ++ (b',' ∷ value)) list s

add_param-IsSorted :
    (key value : Bytes) (list : ParamList) → IsSorted list → IsSorted (add_param key value list)
unfolding add_param
add_param-IsSorted key value list s = elim (Bool-cases (is_array key)) [
  | inl e ↦ rw e (append_value-IsSorted (take (length key - 2) key) value _ list s)
  | inr e ↦ rw e (insert-IsSorted key value list s)
]

pub add_all-IsSorted :
    (list : ParamList) (ps : List (Bytes × Bytes)) → IsSorted list → IsSorted (add_all list ps)
unfolding add_all
add_all-IsSorted list [] s = s
add_all-IsSorted list ((key, value) ∷ ps) s =
    add_all-IsSorted (add_param key value list) ps (add_param-IsSorted key value list s)

pub find-add_all :
    (name : Bytes) (list : ParamList) (ps : List (Bytes × Bytes))
    → find name (add_all list ps) ≡ meaning name (find name list) ps
unfolding add_all meaning
find-add_all name list [] = refl
find-add_all name list ((key, value) ∷ ps) =
    find-add_all name (add_param key value list) ps
    ∙ ap (λ old. meaning name old ps) (find-add_param name key value list)

module _ (pf : Platform) where
  decode-cases : (s : Bytes) → ((t : Bytes) × (decode pf s ≡ ok t)) ⊎ (decode pf s ≡ undefined)
  unfolding decode
  decode-cases s = elim (Option-cases (pf.uridecode (c_str s) true)) [
    | inl e ↦ inr (rw (e, decode))
    | inr (d, e) ↦ inl (c_str d, rw (e, decode))
  ]

  add_matches-add_all :
      (list : ParamList) (ms : List (Bytes × Bytes))
      → add_matches pf list ms ≡ and_then (decode_all pf ms) (λ ps. ok (add_all list ps))
  unfolding add_matches decode_all add_all
  add_matches-add_all list [] = refl
  add_matches-add_all list ((k, v) ∷ ms) = elim (decode-cases k) [
    | inr e ↦ rw (e, add_matches, decode_all)
    | inl (key, e) ↦ elim (decode-cases v) [
      | inr q ↦ rw (e, q, add_matches, decode_all)
      | inl (value, q) ↦
          rw (e, q, add_matches, decode_all)
            (add_matches-add_all (add_param key value list) ms
              ∙ and_then_ok (decode_all pf ms) (key, value) list)
    ]
  ]

  pub parse_query-add_all :
      (query : Bytes)
      → parse_query pf (some query)
        ≡ and_then (decode_all pf (split_query query)) (λ ps. ok (add_all [] ps))
  unfolding parse_query
  parse_query-add_all query =
      add_matches-add_all [] (matches query) ∙ rw (matches-split_query query)

  -- What the list of a query is, from its decoded parameters: it is sorted, and it has under each
  -- name the meaning of the name. There is none if a text does not decode.
  abbrev pub Means : Outcome (List (Bytes × Bytes)) → Outcome ParamList → Type 0
  Means (ok ps) result =
      (list : ParamList) × (result ≡ ok list)
      × IsSorted list
      × ((name : Bytes) → find name list ≡ meaning name none ps)
  Means (throw e) result = result ≡ throw e
  Means undefined result = result ≡ undefined

  Means-add_all :
      (r : Outcome (List (Bytes × Bytes))) → Means r (and_then r (λ ps. ok (add_all [] ps)))
  unfolding find
  Means-add_all (ok ps) =
      (add_all [] ps, refl, add_all-IsSorted [] ps tt, λ name. find-add_all name [] ps)
  Means-add_all (throw e) = refl
  Means-add_all undefined = refl

  -- The list that Queries makes of a query is what the query means: if the query is split at every
  -- '&' and at '=' and the texts are decoded, then from the left a plain parameter sets the value of
  -- its name, and an array parameter is joined to the value of its name by a comma, or sets it. If a
  -- text does not decode, the behaviour is undefined.
  pub parse_query-meaning :
      (query : Bytes) → Means (decode_all pf (split_query query)) (parse_query pf (some query))
  parse_query-meaning query =
      subst (Means (decode_all pf (split_query query))) (sym (parse_query-add_all query))
        (Means-add_all (decode_all pf (split_query query)))
