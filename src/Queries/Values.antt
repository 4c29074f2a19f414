-- ===== src/Queries/Values.antt =====
-- What `Queries` finds under a key: the values of array parameters are gathered in their order.
use easy_http.Prelude.{
  ◌-◌, ◌≡◌, ◌≢◌, refl, ap, ◌∙◌, sym, arith, List, [], ◌∷◌, ◌++◌, Option, none, some, true, false,
  map, append_assoc, append-nil, All, length, take, drop, length-append, take-append, drop-append,
  take-append-drop, if◌then◌else◌, Bool-cases, both_true, inl, inr,
}
use easy_http.Prelude.Int.{ℤ}
use easy_http.Bytes.{Bytes, is_empty, text, same}
use easy_http.Bytes.Order.{same_iff, same_refl}
use easy_http.Outcome.{ok}
use easy_http.ParamList.{ParamList, find}
use easy_http.ParamList.Laws.{find-insert_self, find-insert_ne}
use easy_http.Values.{ints, get_val_or, is_filled}
use easy_http.Values.Numerals.{Item, item, item_text, item_value, IsInt, join, get_val-join}
use easy_http.World.External.{Platform}
use easy_http.Queries.{is_array, add_param, append_value, decode, add_matches}

-- The key under which a form sends one value of the array `k`.
abbrev pub array_key : Bytes → Bytes
array_key k = k ++ text "[]"

size-array_key : (k : Bytes) → length (array_key k) - 2 ≡ length k
size-array_key k = omega (arith, length-append k (text "[]"))

is_array-array_key : (k : Bytes) → is_empty k ≡ false → is_array (array_key k) ≡ true
unfolding is_array
is_array-array_key [] h = cc
is_array-array_key (c ∷ k) h =
    rw (size-array_key (c ∷ k), drop-append (c ∷ k) (text "[]"))
      (rw same_refl (ground (arith, length-append k (text "[]"))))

name-array_key : (k : Bytes) → take (length (array_key k) - 2) (array_key k) ≡ k
name-array_key k = rw (size-array_key k) (take-append k (text "[]"))

key_of_is_array : (key : Bytes) → is_array key ≡ true → key ≡ array_key (take (length key - 2) key)
unfolding is_array
key_of_is_array key h =
    let tail = (same_iff (drop (length key - 2) key) (text "[]")).0 (both_true _ _ h).1 in
    sym (take-append-drop (length key - 2) key) ∙ ap (λ t. take (length key - 2) key ++ t) tail

-- The text under the key of an array after the given values were sent.
abbrev pub gathered : List Bytes → Option Bytes
gathered [] = none
gathered (v ∷ vs) = some (join (v ∷ vs))

join_last :
    (v : Bytes) (vs : List Bytes) (w : Bytes)
    → join ((v ∷ vs) ++ (w ∷ [])) ≡ join (v ∷ vs) ++ (b',' ∷ w)
unfolding join
join_last v [] w = refl
join_last v (u ∷ vs) w = rw (join_last u vs w) (sym (append_assoc v _ _))

find-add_param_array :
    (k w : Bytes) (vs : List Bytes) (list : ParamList)
    → is_empty k ≡ false
    → find k list ≡ gathered vs
    → find k (add_param (array_key k) w list) ≡ gathered (vs ++ (w ∷ []))
unfolding add_param join
find-add_param_array k w [] list e h =
    rw (is_array-array_key k e, name-array_key k, h) (find-insert_self k w list)
find-add_param_array k w (v ∷ vs) list e h =
    rw (is_array-array_key k e, name-array_key k, h)
      (find-insert_self k (join (v ∷ vs) ++ (b',' ∷ w)) list ∙ ap some (sym (join_last v vs w)))

find-append_value_ne :
    (k name w : Bytes) (old : Option Bytes) (list : ParamList)
    → name ≢ k
    → find k (append_value name w old list) ≡ find k list
find-append_value_ne k name w none list h = find-insert_ne k name w list h
find-append_value_ne k name w (some old) list h = find-insert_ne k name (old ++ (b',' ∷ w)) list h

find-add_param_other :
    (k key w : Bytes) (list : ParamList)
    → key ≢ k
    → key ≢ array_key k
    → find k (add_param key w list) ≡ find k list
unfolding add_param
find-add_param_other k key w list p q = elim (Bool-cases (is_array key)) [
  | inl e ↦ rw e (
      find-append_value_ne k (take (length key - 2) key) w _ list
        (λ same_name. q (key_of_is_array key e ∙ ap array_key same_name)))
  | inr e ↦ rw e (find-insert_ne k key w list p)
]

-- A match of the query with its two texts decoded.
pub record Param (pf : Platform) : Type 0 where
  pub raw : Bytes × Bytes
  pub key : Bytes
  pub value : Bytes
  pub key_decoded : decode pf raw.0 ≡ ok key
  pub value_decoded : decode pf raw.1 ≡ ok value

module _ (pf : Platform) where
  abbrev pub raw_of : Param pf → Bytes × Bytes
  raw_of p = p.raw

  -- The values of the array `k`, in their order.
  unfoldable pub values_of : Bytes → List (Param pf) → List Bytes
  values_of k [] = []
  values_of k (p ∷ ps) =
      if same p.key (array_key k) then p.value ∷ values_of k ps else values_of k ps

  add_matches-find :
      (k : Bytes) (vs : List Bytes) (ps : List (Param pf)) (list : ParamList)
      → is_empty k ≡ false
      → All (λ p. p.key ≢ k) ps
      → find k list ≡ gathered vs
      → (result : ParamList) × (add_matches pf list (map raw_of ps) ≡ ok result)
        × (find k result ≡ gathered (vs ++ values_of k ps))
  unfolding add_matches values_of
  add_matches-find k vs [] list e h f = (list, refl, rw append-nil f)
  add_matches-find k vs (p ∷ ps) list e h f = elim (Bool-cases (same p.key (array_key k))) [
    | inl here ↦
        let name = (same_iff p.key (array_key k)).0 here in
        let (result, run, found) =
          add_matches-find k (vs ++ (p.value ∷ [])) ps (add_param p.key p.value list) e h.1
            (rw name (find-add_param_array k p.value vs list e f)) in
        (
          result,
          rw (p.key_decoded, p.value_decoded, add_matches) run,
          rw here (found ∙ ap gathered (append_assoc vs _ _)),
        )
    | inr other ↦
        let differs : p.key ≢ array_key k = λ e'. cc (other, (same_iff p.key (array_key k)).1 e') in
        let (result, run, found) =
          add_matches-find k vs ps (add_param p.key p.value list) e h.1
            (find-add_param_other k p.key p.value list h.0 differs ∙ f) in
        (result, rw (p.key_decoded, p.value_decoded, add_matches) run, rw other found)
  ]

  -- A list with the values of an array under its key, joined by commas, results from any query whose
  -- matches decode, if no parameter has the key without the brackets.
  pub add_matches-array :
      (k : Bytes) (ps : List (Param pf))
      → is_empty k ≡ false
      → All (λ p. p.key ≢ k) ps
      → (result : ParamList) × (add_matches pf [] (map raw_of ps) ≡ ok result)
        × (find k result ≡ gathered (values_of k ps))
  add_matches-array k ps e h = add_matches-find k [] ps [] e h (unfold find in refl)

join-nonempty : (i : Item) (is : List Item) → is_empty (join (map item_text (i ∷ is))) ≡ false
unfolding join
join-nonempty (item true d ds) [] = refl
join-nonempty (item false d ds) [] = refl
join-nonempty (item true d ds) (j ∷ is) = refl
join-nonempty (item false d ds) (j ∷ is) = refl

get_val_or-join :
    (pf : Platform) (k : Bytes) (i : Item) (is : List Item) (list : ParamList) (d : List ℤ)
    → All IsInt (i ∷ is)
    → find k list ≡ some (join (map item_text (i ∷ is)))
    → get_val_or pf.stod ints list k d ≡ map item_value (i ∷ is)
unfolding get_val_or is_filled
get_val_or-join pf k i is list d h f =
    rw (f, is_filled, join-nonempty i is, get_val-join pf.stod i is h)

-- If the matches of a query decode, no parameter has the non-empty key `k` itself, and the values of
-- the parameters `k[]` are the decimal numerals of values of type `int`, at least one, then the loop
-- over the matches succeeds, and the conversion to a vector of `int` under `k` gives those values in
-- their order, whatever other parameters stand between.
pub query-ints :
    (pf : Platform) (k : Bytes) (ps : List (Param pf)) (i : Item) (is : List Item) (d : List ℤ)
    → is_empty k ≡ false
    → All (λ p. p.key ≢ k) ps
    → values_of pf k ps ≡ map item_text (i ∷ is)
    → All IsInt (i ∷ is)
    → (result : ParamList) × (add_matches pf [] (map (raw_of pf) ps) ≡ ok result)
      × (get_val_or pf.stod ints result k d ≡ map item_value (i ∷ is))
query-ints pf k ps i is d e h v n =
    let (result, run, found) = add_matches-array pf k ps e h in
    (result, run, get_val_or-join pf k i is result d n (found ∙ ap gathered v))
