-- ===== src/ParamList.antt =====
-- `ParamList` of include/easy_http/request_base.h: `std::map<std::string, std::string>`, as the list
-- of its entries in the order of iteration, which is that of the keys.
pub mod Laws
pub mod Extensionality
use easy_http.Prelude.{List, [], ◌∷◌, Option, none, some, Ordering}
use easy_http.Bytes.{Bytes, lex}

abbrev pub ParamList : Type 0
ParamList = List (Bytes × Bytes)

-- map::find, with `some` of the value for an iterator that is not `end()`.
unfoldable pub find : Bytes → ParamList → Option Bytes
unfolding lex
find k [] = none
find k ((j, w) ∷ m) = elim (lex k j) [ Ordering.eq ↦ some w | _ ↦ find k m ]

-- list[k] = v
unfoldable pub insert : Bytes → Bytes → ParamList → ParamList
unfolding lex
insert k v [] = (k, v) ∷ []
insert k v ((j, w) ∷ m) = elim (lex k j) [
  | Ordering.lt ↦ (k, v) ∷ (j, w) ∷ m
  | Ordering.eq ↦ (j, v) ∷ m
  | Ordering.gt ↦ (j, w) ∷ insert k v m
]
