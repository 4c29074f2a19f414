-- ===== src/EvRequest/Agreement/Sending.antt =====
-- EvRequest and RequestBase, where they send a request.
use mathlib.Core.Path.{subst}
use easy_http.Prelude.{ℕ, ◌≡◌, refl, sym, ap, Bool, Option-cases, Bool-cases, inl, inr, ◌∷◌}
use easy_http.Prelude.Int.{negsuc, eq_ℤ}
use easy_http.Bytes.{Bytes, c_str}
use easy_http.Outcome.{Outcome, ok, throw, undefined}
use easy_http.World.{World, continue}
use easy_http.World.Calls.{make_request, connection_free, dispatch}
use easy_http.World.External.{Platform}
use easy_http.RequestBase.{RequestBase, RequestMethod, request}
use easy_http.RequestBase.Fields
use easy_http.RequestBase.Send as New
use easy_http.EvRequest.{EvRequest}
use easy_http.EvRequest.Fields as OldFields
use easy_http.EvRequest.Send as Old

-- Both end alike, and with the same calls.
abbrev pub SameCalls : {A : Type 0} → Outcome A × World → Outcome A × World → Type 0
SameCalls old new = (old.0 ≡ new.0) × (old.1.calls ≡ new.1.calls)

-- Both end alike; if they return, the new one has freed the connection besides.
abbrev pub SameButFreed : ℕ → Outcome (Unit {0}) × World → Outcome (Unit {0}) × World → Type 0
SameButFreed e_con (ok a, u) (ok b, v) = v.calls ≡ connection_free e_con ∷ u.calls
SameButFreed e_con (ok a, u) _ = ⊥
SameButFreed e_con (o, u) new = SameCalls (o, u) new

module _ (pf : Platform) where
  -- Both send in the same way.
  pub record SendsAlike (old : EvRequest) (self : RequestBase) : Type 0 where
    pub send_async :
        (e_con : ℕ) (method : RequestMethod) (w : World)
        → SameCalls (Old.send_async pf old e_con method w) (New.send_async pf self e_con method w)
    pub send :
        (e_con : ℕ) (method : RequestMethod) (w : World)
        → SameButFreed e_con (Old.send pf old e_con method w) (New.send pf self e_con method w)
    pub cancel : (w : World) → Old.cancel pf old w ≡ New.cancel pf self w
    pub wait : (w : World) → Old.wait pf old w ≡ New.wait pf self w

  -- Two objects to send with the same pointers.
  module _ (old : EvRequest) (self : RequestBase) where
    abbrev old_one : EvRequest
    old_one = record old { request_type = request; e_request = self.e_request; e_uri = self.e_uri }

    abbrev new_one : RequestBase
    new_one = record self { request_type = request }

    abbrev is_refused : Bytes → ℕ → RequestMethod → World → Bool
    is_refused url e_con method w =
        eq_ℤ
          (pf.answer w.calls
            (make_request e_con self.e_request (New.cmd_of_method method) (c_str url)))
          (negsuc 0)

    send_async-agrees :
        (e_con : ℕ) (method : RequestMethod) (w : World)
        → SameCalls
            (Old.send_async pf old_one e_con method w)
            (New.send_async pf new_one e_con method w)
    unfolding Old.send_async New.send_async OldFields.full_url Fields.full_url
    send_async-agrees e_con method w = elim (Option-cases (pf.request_uri w.calls self.e_request)) [
      | inl e ↦
          let joined = Fields.or_empty (pf.uri_join w.calls self.e_uri Fields.url_max) in
          elim (Bool-cases (is_refused joined e_con method w)) [
            | inl f ↦ rw (e, continue, f) (refl, refl)
            | inr f ↦ rw (e, continue, f) (refl, refl)
          ]
      | inr (url, e) ↦ elim (Bool-cases (is_refused url e_con method w)) [
        | inl f ↦ rw (e, continue, f) (refl, refl)
        | inr f ↦ rw (e, continue, f) (refl, refl)
      ]
    ]

    send-agrees :
        (e_con : ℕ) (method : RequestMethod) (w : World)
        → SameButFreed e_con
            (Old.send pf old_one e_con method w)
            (New.send pf new_one e_con method w)
    unfolding Old.send New.send
    send-agrees e_con method w =
        after (Old.send_async pf old_one e_con method w) (New.send_async pf new_one e_con method w)
          (send_async-agrees e_con method w)
      where
        after :
            (p q : Outcome (Unit {0}) × World)
            → SameCalls p q
            → SameButFreed e_con
                (continue
                  (λ _. λ v. (
                    ok tt,
                    record v { calls = dispatch (pf.connection_base v.calls e_con) ∷ v.calls },
                  ))
                  p)
                (continue
                  (λ _. λ v. (
                    ok tt,
                    record v {
                      calls =
                          connection_free e_con
                          ∷ dispatch (pf.connection_base v.calls e_con)
                          ∷ v.calls;
                    },
                  ))
                  q)
        after (ok a, u) (ok b, v) h =
            ap (λ calls. connection_free e_con ∷ dispatch (pf.connection_base calls e_con) ∷ calls)
              (sym h.1)
        after (ok a, u) (throw e, v) h = cc (h.0)
        after (ok a, u) (undefined, v) h = cc (h.0)
        after (throw e, u) (ok b, v) h = cc (h.0)
        after (throw e, u) (throw x, v) h = h
        after (throw e, u) (undefined, v) h = h
        after (undefined, u) (ok b, v) h = cc (h.0)
        after (undefined, u) (throw x, v) h = h
        after (undefined, u) (undefined, v) h = h

    ones-SendsAlike : SendsAlike old_one new_one
    unfolding Old.cancel New.cancel Old.wait New.wait
    ones-SendsAlike = record {
      send_async = send_async-agrees;
      send = send-agrees;
      cancel = λ w. refl;
      wait = λ w. refl;
    }

    -- For the same libevent request and URI, an EvRequest and a RequestBase to send make the same calls
    -- and end alike in SendAsync, Cancel and Wait; so they do in Send, where the RequestBase frees the
    -- connection at the end besides, if Send returns.
    pub sends_alike :
        old.e_request ≡ self.e_request
        → old.e_uri ≡ self.e_uri
        → old.request_type ≡ request
        → self.request_type ≡ request
        → SendsAlike old self
    sends_alike same_request same_uri old_sends new_sends =
        let same_old : old_one ≡ old = cc in
        let same_new : new_one ≡ self = cc in
        subst (λ o. SendsAlike o self) same_old
          (subst (SendsAlike old_one) same_new ones-SendsAlike)
