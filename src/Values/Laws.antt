-- ===== src/Values/Laws.antt =====
-- Lower case.
use easy_http.Prelude.{ℕ, ◌≡◌, refl, arith, [], ◌∷◌}
use easy_http.Bytes.{Bytes}
use easy_http.Values.{to_lower_byte, to_lower}

to_lower_byte_idem : (c : ℕ) → to_lower_byte (to_lower_byte c) ≡ to_lower_byte c
unfolding to_lower_byte
to_lower_byte_idem c = ground arith

pub to_lower_idem : (s : Bytes) → to_lower (to_lower s) ≡ to_lower s
unfolding to_lower
to_lower_idem [] = refl
to_lower_idem (c ∷ s) = cc (to_lower_byte_idem c, to_lower_idem s)
