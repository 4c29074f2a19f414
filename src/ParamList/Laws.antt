-- ===== src/ParamList/Laws.antt =====
-- The laws of the map: what is found after a write, the order of the keys, and how a map is rebuilt
-- from its entries.
use easy_http.Prelude.{
  ◌≡◌, ◌≢◌, ◌∙◌, refl, List, [], ◌∷◌, ◌++◌, some, Ordering, arith, if◌then◌else◌, append_assoc,
  append-nil,
}
use easy_http.Bytes.{Bytes, lex, same}
use easy_http.Bytes.Order.{lex_refl, eq_of_lex, lex_flip, lex_flip', lex_trans, same_iff, same_refl}
use easy_http.ParamList.{ParamList, find, insert}

pub find-insert :
    (j k v : Bytes) (m : ParamList)
    → find j (insert k v m) ≡ (if same j k then some v else find j m)
unfolding find insert same
find-insert j k v [] = ground arith
find-insert j k v ((i, w) ∷ m) =
    ground (arith, find-insert j k v m, eq_of_lex k i, eq_of_lex j k, eq_of_lex j i, lex_refl k)

pub find-insert_self : (k v : Bytes) (m : ParamList) → find k (insert k v m) ≡ some v
find-insert_self k v m = rw (find-insert k k v m, same_refl k)

pub find-insert_ne : (j k v : Bytes) (m : ParamList) → k ≢ j → find j (insert k v m) ≡ find j m
find-insert_ne j k v m h = ground (arith, find-insert j k v m, same_iff j k)

-- The first key of the map lies above `k`.
abbrev pub Above : Bytes → ParamList → Type 0
Above k [] = Unit
Above k ((j, w) ∷ m) = lex k j ≡ Ordering.lt

-- The keys rise, so that each stands once: the representation invariant of std::map.
abbrev pub IsSorted : ParamList → Type 0
IsSorted [] = Unit
IsSorted ((j, w) ∷ m) = Above j m × IsSorted m

insert-Above :
    (i k v : Bytes) (m : ParamList) → lex i k ≡ Ordering.lt → Above i m → Above i (insert k v m)
unfolding insert
insert-Above i k v [] h a = h
insert-Above i k v ((j, w) ∷ m) h a = ground arith

pub insert-IsSorted : (k v : Bytes) (m : ParamList) → IsSorted m → IsSorted (insert k v m)
unfolding insert
insert-IsSorted k v [] s = (tt, tt)
insert-IsSorted k v ((j, w) ∷ m) s =
    ground (arith, lex_flip' k j, eq_of_lex k j, insert-Above j k v m, insert-IsSorted k v m)

-- Writes in turn.
unfoldable pub insert_all : ParamList → List (Bytes × Bytes) → ParamList
insert_all m [] = m
insert_all m ((k, v) ∷ es) = insert_all (insert k v m) es

-- Every key of the map lies below `k`.
abbrev pub Below : Bytes → ParamList → Type 0
Below k [] = Unit
Below k ((j, w) ∷ m) = (lex j k ≡ Ordering.lt) × Below k m

insert_last : (k v : Bytes) (m : ParamList) → Below k m → insert k v m ≡ m ++ (k, v) ∷ []
unfolding insert
insert_last k v [] b = refl
insert_last k v ((j, w) ∷ m) b = ground (arith, lex_flip j k, insert_last k v m)

Below-concat :
    (j k v : Bytes) (m : ParamList) → lex j k ≡ Ordering.lt → Below j m → Below k (m ++ (j, v) ∷ [])
Below-concat j k v [] h b = (h, tt)
Below-concat j k v ((i, w) ∷ m) h b = (lex_trans i j k b.0 h, Below-concat j k v m h b.1)

-- Every key of the first map lies below the first key of the second.
abbrev Meets : ParamList → ParamList → Type 0
Meets m [] = Unit
Meets m ((k, v) ∷ es) = Below k m

insert_all_from : (m es : ParamList) → IsSorted es → Meets m es → insert_all m es ≡ m ++ es
unfolding insert_all
insert_all_from m [] s b = rw append-nil
insert_all_from m ((k, v) ∷ []) s b = insert_last k v m b
insert_all_from m ((k, v) ∷ (j, w) ∷ es) s b = rw (insert_last k v m b) (
    insert_all_from (m ++ (k, v) ∷ []) ((j, w) ∷ es) s.1 (Below-concat k j v m s.0 b)
    ∙ append_assoc m _ _)

pub insert_all_entries : (es : ParamList) → IsSorted es → insert_all [] es ≡ es
insert_all_entries es s = insert_all_from [] es s (meets es)
  where
    meets : (es : ParamList) → Meets [] es
    meets [] = tt
    meets (e ∷ es) = tt
