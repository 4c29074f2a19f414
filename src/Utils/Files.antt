-- ===== src/Utils/Files.antt =====
-- Descriptors: what `open_file` leaves open.
use easy_http.Prelude.{◌≡◌, ◌∷◌, true, false, inl, inr, Bool-cases}
use easy_http.Prelude.Int.{ℤ, pos, negsuc, ltb_ℤ}
use easy_http.Bytes.{Bytes, c_str}
use easy_http.Outcome.{Outcome, ok}
use easy_http.World.{World}
use easy_http.World.Calls.{Call, open_read, fstat, close}
use easy_http.World.External.{Platform}
use easy_http.Utils.{open_file}

-- How an opening ended: the descriptor that the caller owns and the size of the file, or a negative
-- number and no descriptor that is still open.
module _ (pf : Platform) (path : Bytes) (w : World) where
  abbrev opening : Call
  opening = open_read (c_str path)

  abbrev fd : ℤ
  fd = pf.answer w.calls opening

  abbrev stat : ℤ
  stat = pf.answer (opening ∷ w.calls) (fstat fd)

  pub data Opened : Outcome (ℤ × ℤ) × World → Type 0 where
    not_opened :
        ltb_ℤ fd (pos 0) ≡ true → Opened (ok (fd, pos 0), record w { calls = opening ∷ w.calls })
    closed_again :
        ltb_ℤ fd (pos 0) ≡ false
        → ltb_ℤ stat (pos 0) ≡ true
        → Opened
            (ok (negsuc 0, pos 0), record w { calls = close fd ∷ fstat fd ∷ opening ∷ w.calls })
    opened :
        ltb_ℤ fd (pos 0) ≡ false
        → ltb_ℤ stat (pos 0) ≡ false
        → Opened (
          ok (fd, pf.file_size (fstat fd ∷ opening ∷ w.calls) fd),
          record w { calls = fstat fd ∷ opening ∷ w.calls },
        )

  -- open_file returns a descriptor that is open, with the size of its file, or a negative number
  -- after which no descriptor is left open: the one of a file with no status is closed again.
  open_file-Opened : Opened (open_file pf path w)
  unfolding open_file
  open_file-Opened = elim (Bool-cases (ltb_ℤ fd (pos 0))) [
    | inl h ↦ rw h (not_opened h)
    | inr h ↦ rw h (elim (Bool-cases (ltb_ℤ stat (pos 0))) [
      | inl k ↦ rw k (closed_again h k)
      | inr k ↦ rw k (opened h k)
    ])
  ]
