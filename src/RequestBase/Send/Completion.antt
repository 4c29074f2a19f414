-- ===== src/RequestBase/Send/Completion.antt =====
-- Requests and replies of the wrong type, and the flag of a completed request.
use mathlib.Core.Path.{subst}
use easy_http.Prelude.{ℕ, ◌≡◌, arith, true}
use easy_http.Prelude.Int.{ℤ}
use easy_http.Bytes.{text}
use easy_http.Outcome.{Outcome, ok, throw, undefined, runtime_error}
use easy_http.World.{World, M, continue, finally}
use easy_http.World.External.{Platform}
use easy_http.RequestBase.{
  RequestBase, RequestMethod, request, response, assign, of_received, release,
}
use easy_http.RequestBase.Fields.{is_complete}
use easy_http.RequestBase.Reply.{reply}
use easy_http.RequestBase.Send.{send_async, send, call_handler, response_handle, on_reply_complete}

-- Holds of the world after a method, if it returned.
abbrev IfOk : {A : Type 0} → (World → Type 0) → Outcome A × World → Type 0
IfOk P (ok a, w) = P w
IfOk P (throw e, w) = Unit
IfOk P (undefined, w) = Unit

IfOk-continue :
    {A B : Type 0} (P : World → Type 0) (f : A → M B) (r : Outcome A × World)
    → ((a : A) (w : World) → IfOk P (f a w))
    → IfOk P (continue f r)
IfOk-continue P f (ok a, w) h = h a w
IfOk-continue P f (throw e, w) h = tt
IfOk-continue P f (undefined, w) h = tt

abbrev IsMarked : ℕ → World → Type 0
IsMarked con w = (w.containers con).is_complete ≡ true

on_reply_complete-IsMarked : (con : ℕ) (w : World) → IfOk (IsMarked con) (on_reply_complete con w)
unfolding on_reply_complete
on_reply_complete-IsMarked con w = ground arith

module _ (pf : Platform) where
  response_handle-IfOk :
      (e_request con : ℕ) (w : World) → IfOk (IsMarked con) (response_handle pf e_request con w)
  unfolding response_handle
  response_handle-IfOk e_request con w =
      IfOk-continue (IsMarked con) _ (of_received pf e_request w) (λ base v.
        IfOk-continue (IsMarked con) _
          (finally (release pf base) (call_handler (w.containers con).response_handler e_request) v)
          (λ called u. on_reply_complete-IsMarked con _))

  -- After libevent's callback for a response has returned, IsComplete() is true of the request that
  -- has the callback's container and of every copy of it.
  pub is_complete-response_handle :
      (self copy : RequestBase) (e_request : ℕ) (w w' : World)
      → response_handle pf e_request self.cb_container w ≡ (ok tt, w')
      → is_complete pf (assign copy self) w' ≡ (ok true, w')
  unfolding is_complete assign
  is_complete-response_handle self copy e_request w w' e =
      let marked : IsMarked self.cb_container w' =
        subst (IfOk (IsMarked self.cb_container)) e
          (response_handle-IfOk e_request self.cb_container w) in
      rw marked

  -- A received request cannot be sent, and a request to send cannot be answered: both raise an
  -- exception, and nothing is called or changed.
  wrong_type :
      (received to_send : RequestBase) (e_con : ℕ) (method : RequestMethod) (status_code : ℤ)
      (w : World)
      → received.request_type ≡ response
      → to_send.request_type ≡ request
      → (send pf received e_con method w
          ≡ (throw (runtime_error (text "Invalid RequestBase type! use Reply function.")), w))
        × (reply pf to_send status_code w
            ≡ (throw (runtime_error (text "Invalid RequestBase type! use Send function.")), w))
  unfolding send send_async reply
  wrong_type received to_send e_con method status_code w is_received is_to_send =
      (rw is_received, rw is_to_send)
