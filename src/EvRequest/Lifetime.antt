-- ===== src/EvRequest/Lifetime.antt =====
-- Moved objects, and methods for the other type of request.
use easy_http.Prelude.{ℕ, ◌≡◌, refl, Option}
use easy_http.Prelude.Int.{ℤ}
use easy_http.Bytes.{text}
use easy_http.Outcome.{throw, undefined, runtime_error}
use easy_http.World.{World}
use easy_http.World.External.{Platform}
use easy_http.RequestBase.{RequestMethod, ChunkCallback, request, response}
use easy_http.EvRequest.{EvRequest, destroy, move_assign}
use easy_http.EvRequest.Reply.{reply}
use easy_http.EvRequest.Send.{send_async, send}

module _ (pf : Platform) where
  -- Whatever is moved, the destructor of the object that was moved from has undefined behaviour: it
  -- asks libevent about a request that is NULL; and the one that was moved to is destroyed as the
  -- other one would have been.
  pub destroy-move_assign :
      (left : Option ChunkCallback) (self req : EvRequest) (w : World)
      → (destroy pf (move_assign left self req).1 w ≡ (undefined, w))
        × (destroy pf (move_assign left self req).0 w ≡ destroy pf req w)
  unfolding destroy move_assign
  destroy-move_assign left self req w = (refl, refl)

  -- A received EvRequest cannot be sent, and one to send cannot be answered: both raise an exception,
  -- and nothing is called or changed.
  wrong_type_ev :
      (this : ℕ) (received to_send : EvRequest) (e_con : ℕ) (method : RequestMethod)
      (status_code : ℤ) (w : World)
      → received.request_type ≡ response
      → to_send.request_type ≡ request
      → (send pf received e_con method w
          ≡ (throw (runtime_error (text "Invalid EvRequest type! use Reply function.")), w))
        × (reply this to_send status_code w
            ≡ (throw (runtime_error (text "Invalid EvRequest type! use Send function.")), w))
  unfolding send send_async reply
  wrong_type_ev this received to_send e_con method status_code w is_received is_to_send =
      (rw is_received, rw is_to_send)
