-- ===== src/RequestBase/Send/Callbacks.antt =====
-- The callbacks of a request that was sent: one for each chunk of the response, and one at its end.
use mathlib.Core.Path.{subst}
use easy_http.Prelude.{ℕ, suc, ◌+◌, ◌≡◌, ◌∙◌, arith, ◌∷◌, true, false, ◌==◌, Bool-cases, inl, inr}
use easy_http.Outcome.{Outcome, ok, throw, undefined}
use easy_http.World.{World, M, continue, finally}
use easy_http.World.Calls.{respond}
use easy_http.World.Count.{total}
use easy_http.World.External.{Platform}
use easy_http.RequestBase.{RequestBase, release, assign, of_received}
use easy_http.RequestBase.Fields.{is_complete}
use easy_http.RequestBase.Send.{
  call_handler, response_handle, response_chunked_handle, on_reply_complete,
}
use easy_http.RequestBase.Send.Completion.{is_complete-response_handle}
use easy_http.RequestBase.Send.Pending.{
  responses, IsPending, After, IfOk, Calls, bind-Calls, of_received-Calls, call_handler-Calls,
  finally-Calls, release-total,
}

module _ (handler con : ℕ) where
  module _ (pf : Platform) (e_request : ℕ) where
    -- The callback for a chunk calls the handler of the container, once.
    response_chunked_handle-Calls : Calls handler con 1 (response_chunked_handle pf e_request con)
    unfolding response_chunked_handle
    response_chunked_handle-Calls = record {
      at = λ w p.
          let same_handler : ((w.containers con).response_handler == handler) ≡ true =
            ground (arith, p.answered_by) in
          let m =
            bind-Calls handler con 0 1 (of_received pf e_request)
              (λ made.
                finally (release pf made)
                  (call_handler (w.containers con).response_handler e_request))
              (of_received-Calls handler con pf e_request)
              (λ made.
                finally-Calls handler con pf made 1 _
                  (call_handler-Calls handler con _ e_request same_handler)) in
          m.at w p;
    }

    -- k chunks of the response come.
    pub data Chunks (w : World) : ℕ → World → Type 0 where
      start : Chunks w 0 w
      chunk :
          {k : ℕ} {v u : World}
          → Chunks w k v
          → response_chunked_handle pf e_request con v ≡ (ok tt, u)
          → Chunks w (suc k) u

    Chunks-After :
        {w : World} {k : ℕ} {v : World}
        → IsPending handler con w
        → Chunks w k v
        → After handler con k w v
    Chunks-After p start = (p, omega arith)
    Chunks-After p (chunk {v = v} r e) =
        let (q, h) = Chunks-After p r in
        let (q', h') = subst (IfOk handler con 1 v) e (response_chunked_handle-Calls.at v q) in
        (q', omega (arith, h, h'))

    -- The handler was called so often, if the method returned.
    abbrev Counts : ℕ → World → Outcome (Unit {0}) × World → Type 0
    Counts k w (ok a, v) = total (responses handler) v.calls ≡ total (responses handler) w.calls + k
    Counts k w (throw e, v) = Unit
    Counts k w (undefined, v) = Unit

    continue-Counts :
        {A : Type 0} (k : ℕ) (f : A → M (Unit {0})) (w : World) (o : Outcome A × World)
        → ((a : A) (v : World) → Counts k v (f a v))
        → IfOk handler con 0 w o
        → Counts k w (continue f o)
    continue-Counts {A} k f w (ok a, v) r (p, e) = shift (f a v) (r a v)
      where
        shift : (o : Outcome (Unit {0}) × World) → Counts k v o → Counts k w o
        shift (ok b, u) h = omega (arith, e, h)
        shift (throw x, u) h = tt
        shift (undefined, u) h = tt
    continue-Counts k f w (throw x, v) r h = tt
    continue-Counts k f w (undefined, v) r h = tt

    -- After the call of the handler, the destructor of the response and the end of the loop.
    ended :
        (base : RequestBase) (v : World) (h : ℕ)
        → (h == handler) ≡ true
        → total
            (responses handler)
            (release pf base (record v { calls = respond h e_request ∷ v.calls })).calls
          ≡ total (responses handler) v.calls + 1
    unfolding total
    ended base v h same_handler =
        release-total handler con pf base (record v { calls = respond h e_request ∷ v.calls })
        ∙ rw same_handler (omega arith)

    response_handle-Counts :
        (w : World) → IsPending handler con w → Counts 1 w (response_handle pf e_request con w)
    unfolding response_handle on_reply_complete total
    response_handle-Counts w p =
        let same_handler : ((w.containers con).response_handler == handler) ≡ true =
          ground (arith, p.answered_by) in
        continue-Counts 1 _ w (of_received pf e_request w)
          (λ base v. elim (Bool-cases ((w.containers con).response_handler == 0)) [
            | inl e ↦ rw e tt
            | inr e ↦ let called = ended base v _ same_handler in rw e (omega (arith, called))
          ])
          ((of_received-Calls handler con pf e_request).at w p)

-- While the chunks of a response come, the handler of the request that was sent is called once for
-- each, and the request and its copies are not complete; when the callback for the whole response
-- has returned, the handler was called once more, and the request and its copies are complete.
pub Chunks-response_handle :
    (pf : Platform) (e_request handler : ℕ) (self copy : RequestBase) (k : ℕ) (w v u : World)
    → IsPending handler self.cb_container w
    → Chunks handler self.cb_container pf e_request w k v
    → response_handle pf e_request self.cb_container v ≡ (ok tt, u)
    → (is_complete pf (assign copy self) v ≡ (ok false, v))
      × (total (responses handler) v.calls ≡ total (responses handler) w.calls + k)
      × (is_complete pf (assign copy self) u ≡ (ok true, u))
      × (total (responses handler) u.calls ≡ total (responses handler) w.calls + suc k)
unfolding is_complete assign
Chunks-response_handle pf e_request handler self copy k w v u p r e =
    let con = self.cb_container in
    let (q, h) = Chunks-After handler con pf e_request p r in
    let once =
      subst (Counts handler con pf e_request 1 v) e
        (response_handle-Counts handler con pf e_request v q) in
    (
      rw q.unmarked,
      h,
      is_complete-response_handle pf self copy e_request v u e,
      omega (arith, h, once),
    )
