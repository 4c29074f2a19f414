-- ===== src/RequestBase/Content/Descriptors.antt =====
-- The descriptor of the file that SetFileContent opens.
use easy_http.Prelude.{
  ℕ, ◌≡◌, refl, arith, List, ◌∷◌, Option, none, some, true, false, Bool-cases, inl, inr,
  if◌then◌else◌,
}
use easy_http.Prelude.Int.{ℤ, pos, ltb_ℤ, eq_ℤ}
use easy_http.Bytes.{Bytes, text, c_str, is_empty}
use easy_http.Outcome.{Outcome, ok, throw, undefined, runtime_error}
use easy_http.World.{World, M, ◌>>=◌, pure, raise, continue, call_int}
use easy_http.World.Calls.{Call, open_read, fstat, close, add_header, buffer_add_file}
use easy_http.World.Count.{total}
use easy_http.World.External.{Platform}
use easy_http.Utils.{open_file}
use easy_http.RequestBase.{RequestBase}
use easy_http.RequestBase.Headers.{push_header}
use easy_http.RequestBase.Content.{
  content_types, find_type, extension, push_content_type, add_file, add_opened, set_file_content,
}

abbrev pub closes : Call → ℕ
closes (close fd) = 1
closes _ = 0

module _ (pf : Platform) (self : RequestBase) where
  -- Nothing was closed; and if the method returned, its last call gave the descriptor to libevent,
  -- which took it.
  abbrev pub KeepsOpen : ℤ → World → Outcome (Unit {0}) × World → Type 0
  KeepsOpen fd w (ok a, v) =
      (total closes v.calls ≡ total closes w.calls)
      × ((size : ℤ) × (before : List Call) × (v.calls
            ≡ buffer_add_file self.e_request fd size ∷ before)
          × (eq_ℤ (pf.answer before (buffer_add_file self.e_request fd size)) (pos 0) ≡ true))
  KeepsOpen fd w (throw e, v) = total closes v.calls ≡ total closes w.calls
  KeepsOpen fd w (undefined, v) = ⊥

  abbrev NoneClosed : World → Outcome (Unit {0}) × World → Type 0
  NoneClosed w (undefined, v) = ⊥
  NoneClosed w (ok a, v) = total closes v.calls ≡ total closes w.calls
  NoneClosed w (throw e, v) = total closes v.calls ≡ total closes w.calls

  push_content_type-NoneClosed :
      (mime : Option Bytes) (w : World) → NoneClosed w (push_content_type pf self mime w)
  unfolding push_content_type push_header total
  push_content_type-NoneClosed none w = refl
  push_content_type-NoneClosed (some mime) w =
      elim (Bool-cases (
        eq_ℤ
          (pf.answer w.calls (add_header self.e_request (c_str (text "content-type")) (c_str mime)))
          (pos 0))) [ inl e ↦ rw e (omega arith) | inr e ↦ rw e (omega arith) ]

  -- The end of SetFileContent.
  abbrev hand_over : ℤ → ℤ → M (Unit {0})
  hand_over fd size = do
    r ← call_int pf (buffer_add_file self.e_request fd size)
    if eq_ℤ r (pos 0)
        then pure tt
        else raise (runtime_error (text "Cannot add file content to buffer"))

  hand_over-KeepsOpen :
      (fd size : ℤ) (w v : World)
      → total closes v.calls ≡ total closes w.calls
      → KeepsOpen fd w (hand_over fd size v)
  unfolding total
  hand_over-KeepsOpen fd size w v h =
      elim (Bool-cases
        (eq_ℤ (pf.answer v.calls (buffer_add_file self.e_request fd size)) (pos 0))) [
          | inl e ↦ rw e (omega (arith, h), (size, v.calls, refl, e))
          | inr e ↦ rw e (omega (arith, h))
        ]

  add_file-KeepsOpen :
      (path : Bytes) (fd size : ℤ) (w : World) → KeepsOpen fd w (add_file pf self path fd size w)
  unfolding add_file
  add_file-KeepsOpen path fd size w =
      after (push_content_type pf self mime w) (push_content_type-NoneClosed mime w)
    where
      mime : Option Bytes
      mime = find_type (extension path) content_types

      after :
          (p : Outcome (Unit {0}) × World)
          → NoneClosed w p
          → KeepsOpen fd w (continue (λ _. hand_over fd size) p)
      after (ok a, v) h = hand_over-KeepsOpen fd size w v h
      after (throw e, v) h = h
      after (undefined, v) h = elim h [ ]

  add_opened-KeepsOpen :
      (path : Bytes) (fd size : ℤ) (w : World)
      → KeepsOpen fd w (add_opened pf self path (fd, size) w)
  unfolding add_opened
  add_opened-KeepsOpen path fd size w = elim (Bool-cases (ltb_ℤ (pos 0) fd)) [
    | inl e ↦ rw e (add_file-KeepsOpen path fd size w)
    | inr e ↦ rw e refl
  ]

  KeepsOpen-from :
      (fd : ℤ) (w v : World) (p : Outcome (Unit {0}) × World)
      → total closes v.calls ≡ total closes w.calls
      → KeepsOpen fd v p
      → KeepsOpen fd w p
  KeepsOpen-from fd w v (ok a, x) h keeps = (omega (arith, h, keeps.0), keeps.1)
  KeepsOpen-from fd w v (throw e, x) h keeps = omega (arith, h, keeps)
  KeepsOpen-from fd w v (undefined, x) h keeps = keeps

  -- Once a file is open and its status was read, SetFileContent closes nothing, however it ends: it
  -- returns only after libevent took the descriptor, and an exception leaves the descriptor open.
  pub set_file_content-KeepsOpen :
      (path : Bytes) (fd : ℤ) (w : World)
      → is_empty path ≡ false
      → pf.answer w.calls (open_read (c_str path)) ≡ fd
      → ltb_ℤ fd (pos 0) ≡ false
      → ltb_ℤ (pf.answer (open_read (c_str path) ∷ w.calls) (fstat fd)) (pos 0) ≡ false
      → KeepsOpen fd w (set_file_content pf self path w)
  unfolding set_file_content open_file total
  set_file_content-KeepsOpen path fd w some_path opens valid status =
      let calls = fstat fd ∷ open_read (c_str path) ∷ w.calls in
      let v : World = record w { calls = calls } in
      rw (some_path, opens, valid, status, continue)
        (KeepsOpen-from fd w v (add_opened pf self path (fd, pf.file_size calls fd) v) (omega arith)
          (add_opened-KeepsOpen path fd (pf.file_size calls fd) v))
