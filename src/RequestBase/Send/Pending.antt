-- ===== src/RequestBase/Send/Pending.antt =====
-- Methods that leave the container of a request pending, and how often they call its handler.
use easy_http.Prelude.{
  ℕ, ◌+◌, ◌<◌, ◌≡◌, refl, ◌∙◌, arith, List, Option, none, some, true, false, ◌==◌, if◌then◌else◌,
  Bool-cases, inl, inr,
}
use easy_http.Bytes.{Bytes}
use easy_http.Outcome.{Outcome, ok, throw, undefined}
use easy_http.World.{
  World, M, ◌>>=◌, continue, pure, ask, emit, call_ptr, new_container, finally, unwind,
}
use easy_http.World.Calls.{Call, respond, uri_parse, set_on_complete_cb}
use easy_http.World.Count.{total}
use easy_http.World.External.{Platform}
use easy_http.Queries.{queries}
use easy_http.RequestBase.{RequestBase, release, received, of_received, of_received_from, headers}
use easy_http.RequestBase.Send.{call_handler}

-- The calls of one response handler.
abbrev pub responses : ℕ → Call → ℕ
responses handler (respond h request) = if h == handler then 1 else 0
responses handler _ = 0

module _ (handler con : ℕ) where
  -- The container is one that was made before, is not marked, and has the handler.
  pub record IsPending (w : World) : Type 0 where
    pub made : con < w.next_container
    pub unmarked : (w.containers con).is_complete ≡ false
    pub answered_by : (w.containers con).response_handler ≡ handler

  -- The container is still pending, and the handler was called so often.
  abbrev pub After : ℕ → World → World → Type 0
  After k w v =
      IsPending v × (total (responses handler) v.calls ≡ total (responses handler) w.calls + k)

  abbrev pub IfOk : {A : Type 0} → ℕ → World → Outcome A × World → Type 0
  IfOk k w (ok a, v) = After k w v
  IfOk k w (throw e, v) = Unit
  IfOk k w (undefined, v) = Unit

  -- A method that returns with the container pending, after so many calls of the handler.
  pub record Calls (k : ℕ) {A : Type 0} (m : M A) : Type 0 where
    pub at : (w : World) → IsPending w → IfOk k w (m w)

  pub bind-Calls :
      {A B : Type 0} (j k : ℕ) (m : M A) (f : A → M B)
      → Calls j m
      → ((a : A) → Calls k (f a))
      → Calls (j + k) (m >>= f)
  bind-Calls {A} {B} j k m f q r = record { at = λ w p. after w (m w) (q.at w p) }
    where
      after : (w : World) (o : Outcome A × World) → IfOk j w o → IfOk (j + k) w (continue f o)
      after w (ok a, v) (p, e) = shift (f a v) ((r a).at v p)
        where
          shift : (o : Outcome B × World) → IfOk k v o → IfOk (j + k) w o
          shift (ok b, u) (p', e') = (p', omega (arith, e, e'))
          shift (throw x, u) h = tt
          shift (undefined, u) h = tt
      after w (throw x, v) h = tt
      after w (undefined, v) h = tt

  ask-Calls : {A : Type 0} (f : List Call → A) → Calls 0 (ask f)
  ask-Calls f = record { at = λ w p. (p, omega arith) }

  pure-Calls : {A : Type 0} (a : A) → Calls 0 (pure a)
  pure-Calls a = record { at = λ w p. (p, omega arith) }

  emit-Calls : (c : Call) → Calls (responses handler c) (emit c)
  unfolding total
  emit-Calls c = record {
    at = λ w p.
        (record { made = p.made; unmarked = p.unmarked; answered_by = p.answered_by }, omega arith);
  }

  call_ptr-Calls : (pf : Platform) (c : Call) → responses handler c ≡ 0 → Calls 0 (call_ptr pf c)
  unfolding total
  call_ptr-Calls pf c h = record {
    at = λ w p. (
      record { made = p.made; unmarked = p.unmarked; answered_by = p.answered_by },
      omega (arith, h),
    );
  }

  new_container-Calls : Calls 0 new_container
  new_container-Calls = record {
    at = λ w p.
        let bound = p.made in
        let other : (con == w.next_container) ≡ false = ground arith in
        (
          record {
            made = omega arith;
            unmarked = rw other p.unmarked;
            answered_by = rw other p.answered_by;
          },
          omega arith,
        );
  }

  pending-IfOk : {A : Type 0} (r : Outcome A) (w : World) → IsPending w → IfOk 0 w (r, w)
  pending-IfOk (ok a) w p = (p, omega arith)
  pending-IfOk (throw e) w p = tt
  pending-IfOk undefined w p = tt

  queries-Calls : (pf : Platform) (uri : ℕ) → Calls 0 (queries pf uri)
  unfolding queries
  queries-Calls pf uri = record { at = λ w p. pending-IfOk _ w p }

  of_received_from-Calls :
      (pf : Platform) (e_request : ℕ) (url : Option Bytes)
      → Calls 0 (of_received_from pf e_request url)
  unfolding of_received_from headers
  of_received_from-Calls pf e_request none = record { at = λ w p. tt }
  of_received_from-Calls pf e_request (some url) =
      bind-Calls 0 0 (call_ptr pf (uri_parse url true)) _
        (call_ptr-Calls pf (uri_parse url true) refl)
        (λ uri. bind-Calls 0 0 new_container _ new_container-Calls (λ made.
          bind-Calls 0 0 (emit (set_on_complete_cb e_request made)) _
            (emit-Calls (set_on_complete_cb e_request made))
            (λ _. bind-Calls 0 0 (queries pf uri) _ (queries-Calls pf uri) (λ q.
              bind-Calls 0 0 (headers pf e_request) (λ hs. pure (received e_request uri made q hs))
                (ask-Calls _) (λ hs. pure-Calls _)))))

  pub of_received-Calls : (pf : Platform) (e_request : ℕ) → Calls 0 (of_received pf e_request)
  unfolding of_received
  of_received-Calls pf e_request =
      bind-Calls 0 0 (ask (λ h. pf.request_uri h e_request)) _ (ask-Calls _)
        (of_received_from-Calls pf e_request)

  -- A call of the handler counts once; a call of an empty one does not return.
  pub call_handler-Calls :
      (h e_request : ℕ) → (h == handler) ≡ true → Calls 1 (call_handler h e_request)
  call_handler-Calls h e_request same_handler = record {
    at = λ w p. elim (Bool-cases (h == 0)) [
      | inl e ↦ rw e tt
      | inr e ↦ rw e (rw same_handler at ((emit-Calls (respond h e_request)).at w p))
    ];
  }

  release-IsPending :
      (pf : Platform) (self : RequestBase) (w : World) → IsPending w → IsPending (release pf self w)
  release-IsPending pf self w p = elim (Bool-cases (pf.is_kept self.cb_container)) [
    | inl e ↦ rw e p
    | inr e ↦ rw e (record { made = p.made; unmarked = p.unmarked; answered_by = p.answered_by })
  ]

  pub release-total :
      (pf : Platform) (self : RequestBase) (w : World)
      → total (responses handler) (release pf self w).calls ≡ total (responses handler) w.calls
  unfolding total
  release-total pf self w = elim (Bool-cases (pf.is_kept self.cb_container)) [
    | inl e ↦ rw e refl
    | inr e ↦ rw e (omega arith)
  ]

  pub finally-Calls :
      {A : Type 0} (pf : Platform) (self : RequestBase) (k : ℕ) (m : M A)
      → Calls k m
      → Calls k (finally (release pf self) m)
  finally-Calls {A} pf self k m q = record { at = λ w p. after w (m w) (q.at w p) }
    where
      after :
          (w : World) (o : Outcome A × World) → IfOk k w o → IfOk k w (unwind (release pf self) o)
      after w (ok a, v) (p, e) = (release-IsPending pf self v p, release-total pf self v ∙ e)
      after w (throw x, v) h = tt
      after w (undefined, v) h = tt
