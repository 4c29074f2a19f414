-- ===== src/Queries/Reorder.antt =====
-- The order of the parameters of a query.
use easy_http.Prelude.{
  ◌≡◌, ◌≢◌, ap, ◌∙◌, sym, List, [], ◌∷◌, ◌++◌, Option, some, if◌then◌else◌, Bool-cases, inl, inr,
}
use easy_http.Bytes.{Bytes, same}
use easy_http.Bytes.Order.{same_iff}
use easy_http.Outcome.{ok}
use easy_http.ParamList.Extensionality.{find-injective}
use easy_http.World.External.{Platform}
use easy_http.Queries.{parse_query}
use easy_http.Queries.Reference.{split_query}
use easy_http.Queries.Meaning.{
  name_of, value_after, meaning, add_all, decode_all, add_all-IsSorted, find-add_all,
  parse_query-add_all,
}

-- The second list has the parameters of the first in another order, but those of one name in the same
-- order: neighbours of different names were exchanged.
pub data Reorder (qs : List (Bytes × Bytes)) : List (Bytes × Bytes) → Type 0 where
  same_order : {ps : List (Bytes × Bytes)} → ps ≡ qs → Reorder qs ps
  exchange :
      {ps : List (Bytes × Bytes)} (front back : List (Bytes × Bytes)) (p q : Bytes × Bytes)
      → name_of p.0 ≢ name_of q.0
      → ps ≡ front ++ p ∷ q ∷ back
      → Reorder qs (front ++ q ∷ p ∷ back)
      → Reorder qs ps

meaning-exchange :
    (name : Bytes) (old : Option Bytes) (front back : List (Bytes × Bytes)) (p q : Bytes × Bytes)
    → name_of p.0 ≢ name_of q.0
    → meaning name old (front ++ p ∷ q ∷ back) ≡ meaning name old (front ++ q ∷ p ∷ back)
unfolding meaning
meaning-exchange name old [] back p q h = elim (Bool-cases (same name (name_of p.0))) [
  | inl e ↦ elim (Bool-cases (same name (name_of q.0))) [
    | inl k ↦
        absurd (h (sym ((same_iff name (name_of p.0)).0 e) ∙ (same_iff name (name_of q.0)).0 k))
    | inr k ↦ rw (e, meaning, k)
  ]
  | inr e ↦ rw (e, meaning)
]
meaning-exchange name old (r ∷ front) back p q h =
    meaning-exchange name (if same name (name_of r.0) then some (value_after r old) else old) front
      back p q h

meaning-Reorder :
    (name : Bytes) (old : Option Bytes) (qs ps : List (Bytes × Bytes))
    → Reorder qs ps
    → meaning name old ps ≡ meaning name old qs
meaning-Reorder name old qs ps (same_order e) = ap (meaning name old) e
meaning-Reorder name old qs ps (exchange front back p q h e rest) =
    ap (meaning name old) e
    ∙ meaning-exchange name old front back p q h
    ∙ meaning-Reorder name old qs (front ++ q ∷ p ∷ back) rest

add_all-Reorder : (ps qs : List (Bytes × Bytes)) → Reorder qs ps → add_all [] ps ≡ add_all [] qs
add_all-Reorder ps qs r =
    find-injective (add_all [] ps) (add_all [] qs) (add_all-IsSorted [] ps tt)
      (add_all-IsSorted [] qs tt)
      (λ name.
        find-add_all name [] ps ∙ meaning-Reorder name _ qs ps r ∙ sym (find-add_all name [] qs))

module _ (pf : Platform) where
  -- Two queries whose parameters, once decoded, differ in their order only, where those of one name
  -- keep theirs, give the same map.
  pub parse_query-Reorder :
      (query other : Bytes) (ps qs : List (Bytes × Bytes))
      → decode_all pf (split_query query) ≡ ok ps
      → decode_all pf (split_query other) ≡ ok qs
      → Reorder qs ps
      → parse_query pf (some query) ≡ parse_query pf (some other)
  parse_query-Reorder query other ps qs e k r =
      parse_query-add_all pf query
      ∙ rw (e, add_all-Reorder ps qs r) (sym (parse_query-add_all pf other ∙ rw k))
