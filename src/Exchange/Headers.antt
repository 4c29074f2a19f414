-- ===== src/Exchange/Headers.antt =====
-- The headers of a message, from PushHeader on one side to Header on the other. A message is a
-- request, or the response to one.
use mathlib.Core.Path.{subst}
use easy_http.Prelude.{
  ℕ, ◌≡◌, refl, sym, ◌∙◌, ap, List, [], ◌∷◌, ◌++◌, append_assoc, append-nil, Option, none, some,
  true, All, ◌==◌, ==_iff, if◌then◌else◌, Bool-cases, inl, inr,
}
use easy_http.Prelude.Int.{pos, eq_ℤ}
use easy_http.Bytes.{Bytes}
use easy_http.Outcome.{Outcome, ok, throw, undefined}
use easy_http.ParamList.{ParamList}
use easy_http.Queries.{queries}
use easy_http.Queries.Texts.{IsCText, c_str_whole}
use easy_http.World.{World, M, pure, continue, ◌>>=◌, ask, call_ptr, emit, new_container}
use easy_http.World.Calls.{Call, add_header, uri_parse, set_on_complete_cb}
use easy_http.World.External.{Platform}
use easy_http.World.Yields.{OfResult, Yields, bind-Yields}
use easy_http.Values.{to_lower, string}
use easy_http.RequestBase.{
  RequestBase, received, collect_headers, headers, of_received, of_received_from,
}
use easy_http.RequestBase.Headers.{header, push_header, push_headers}
use easy_http.RequestBase.Headers.Names.{last_named, or_else, or_default, header-last}

-- The headers that were added to a message, in their order.
unfoldable pub sent_headers : ℕ → List Call → List (Bytes × Bytes)
sent_headers e_request [] = []
sent_headers e_request (add_header q key value ∷ calls) =
    sent_headers e_request calls ++ (if q == e_request then (key, value) ∷ [] else [])
sent_headers e_request (_ ∷ calls) = sent_headers e_request calls

-- A header whose texts hold no NUL.
abbrev pub IsHeader : Bytes × Bytes → Type 0
IsHeader (key, value) = IsCText key × IsCText value

last_named-append :
    (k : Bytes) (hs more : List (Bytes × Bytes))
    → last_named k (hs ++ more) ≡ or_else (last_named k more) (last_named k hs)
unfolding last_named
last_named-append k [] more = none_last (last_named k more)
  where
    none_last : (o : Option Bytes) → o ≡ or_else o none
    none_last none = refl
    none_last (some v) = refl
last_named-append k ((name, value) ∷ hs) more =
    rw (last_named-append k hs more) (assoc (last_named k more) (last_named k hs) _)
  where
    assoc : (a b c : Option Bytes) → or_else (or_else a b) c ≡ or_else a (or_else b c)
    assoc none b c = refl
    assoc (some v) b c = refl

module _ (pf : Platform) (self : RequestBase) where
  abbrev HasSent : List (Bytes × Bytes) → World → Outcome (Unit {0}) × World → Type 0
  HasSent hs w (ok a, u) =
      sent_headers self.e_request u.calls ≡ sent_headers self.e_request w.calls ++ hs
  HasSent hs w (throw e, u) = Unit
  HasSent hs w (undefined, u) = Unit

  push_header-HasSent :
      (key value : Bytes) (w : World)
      → IsHeader (key, value)
      → HasSent ((key, value) ∷ []) w (push_header pf self key value w)
  unfolding push_header sent_headers
  push_header-HasSent key value w h =
      let k = c_str_whole key h.0 in
      let v = c_str_whole value h.1 in
      let self_same : (self.e_request == self.e_request) ≡ true =
        (==_iff self.e_request self.e_request).1 refl in
      elim (Bool-cases (eq_ℤ (pf.answer w.calls (add_header self.e_request key value)) (pos 0))) [
        | inl e ↦ rw (k, v, e, self_same) refl
        | inr e ↦ rw (k, v, e) tt
      ]

  push_headers-HasSent :
      (hs : ParamList) (w : World) → All IsHeader hs → HasSent hs w (push_headers pf self hs w)
  unfolding push_headers
  push_headers-HasSent [] w h = sym (append-nil (sent_headers self.e_request w.calls))
  push_headers-HasSent ((key, value) ∷ hs) w h =
      after (λ u. push_headers-HasSent hs u h.1) (push_header pf self key value w)
        (push_header-HasSent key value w h.0)
    where
      shift :
          (u : World) (p : Outcome (Unit {0}) × World)
          → HasSent ((key, value) ∷ []) w (ok tt, u)
          → HasSent hs u p
          → HasSent ((key, value) ∷ hs) w p
      shift u (ok b, v) q r =
          r ∙ rw q (append_assoc (sent_headers self.e_request w.calls) ((key, value) ∷ []) hs)
      shift u (throw e, v) q r = tt
      shift u (undefined, v) q r = tt

      after :
          ((u : World) → HasSent hs u (push_headers pf self hs u))
          → (p : Outcome (Unit {0}) × World) → HasSent ((key, value) ∷ []) w p
          → HasSent ((key, value) ∷ hs) w (continue (λ _. push_headers pf self hs) p)
      after rest (ok a, u) q = shift u (push_headers pf self hs u) q (rest u)
      after rest (throw e, u) q = tt
      after rest (undefined, u) q = tt

module _ (peer : Platform) (e_request : ℕ) (raw : List (Bytes × Bytes))
    (arrived : (calls : List Call) → peer.input_headers calls e_request ≡ raw) where
  abbrev HasHeaders : RequestBase → Type 0
  HasHeaders r = r.input_headers ≡ collect_headers [] raw

  -- The end of the constructor.
  abbrev filled : ℕ → ℕ → ParamList → M RequestBase
  filled uri con q = headers peer e_request >>= λ hs. pure (received e_request uri con q hs)

  filled-HasHeaders : (uri con : ℕ) (q : ParamList) → Yields HasHeaders (filled uri con q)
  unfolding headers
  filled-HasHeaders uri con q = record { at = λ w. ap (collect_headers []) (arrived w.calls) }

  of_received_from-HasHeaders :
      (url : Option Bytes) → Yields HasHeaders (of_received_from peer e_request url)
  unfolding of_received_from headers
  of_received_from-HasHeaders none = record { at = λ w. tt }
  of_received_from-HasHeaders (some url) =
      bind-Yields HasHeaders (call_ptr peer (uri_parse url true)) _ (λ uri.
        bind-Yields HasHeaders new_container _ (λ con.
          bind-Yields HasHeaders (emit (set_on_complete_cb e_request con)) _ (λ done.
            bind-Yields HasHeaders (queries peer uri) (filled uri con)
              (filled-HasHeaders uri con))))

  of_received-HasHeaders : Yields HasHeaders (of_received peer e_request)
  unfolding of_received
  of_received-HasHeaders =
      bind-Yields HasHeaders (ask (λ h. peer.request_uri h e_request)) _ of_received_from-HasHeaders

-- If headers, whose texts hold no NUL, are pushed to a message one after another without an
-- exception, and the message arrives with all headers that were added to it and then some of
-- libevent's own, none of which has the name, then Header of the message that is received, whose name
-- is compared without case, is the value of the last of them with that name; else that of the last one
-- added before; and the default, if there is none or the value is empty.
pub header-push_headers :
    (pf peer : Platform) (self message : RequestBase) (hs : ParamList) (own : List (Bytes × Bytes))
    (e_request : ℕ) (name d : Bytes) (w u v v' : World)
    → All IsHeader hs
    → push_headers pf self hs w ≡ (ok tt, u)
    → ((calls : List Call)
        → peer.input_headers calls e_request ≡ sent_headers self.e_request u.calls ++ own)
    → last_named (to_lower name) own ≡ none
    → of_received peer e_request v ≡ (ok message, v')
    → header peer string message name d
      ≡ or_default d (
          or_else
            (last_named (to_lower name) hs)
            (last_named (to_lower name) (sent_headers self.e_request w.calls)))
header-push_headers pf peer self message hs own e_request name d w u v v' h pushes arrives others
      receives =
    let raw = sent_headers self.e_request u.calls ++ own in
    let k = to_lower name in
    let before = sent_headers self.e_request w.calls in
    let sent : HasSent pf self hs w (ok tt, u) =
      subst (HasSent pf self hs w) pushes (push_headers-HasSent pf self hs w h) in
    let read : message.input_headers ≡ collect_headers [] raw =
      subst (OfResult (λ r. r.input_headers ≡ collect_headers [] raw)) receives
        ((of_received-HasHeaders peer e_request raw arrives).at v) in
    let last : last_named k raw ≡ or_else (last_named k hs) (last_named k before) =
      last_named-append k (sent_headers self.e_request u.calls) own
      ∙ rw (others, sent) (last_named-append k before hs) in
    header-last peer message raw name d read ∙ ap (or_default d) last
