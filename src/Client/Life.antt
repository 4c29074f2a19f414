-- ===== src/Client/Life.antt =====
-- The life of a client: one of its constructors, the requests that it makes, and its destructor.
use mathlib.Core.Path.{subst}
use easy_http.Prelude.{ℕ, ◌+◌, ◌==◌, ◌≡◌, refl, arith, List, ◌∷◌, Bool, false}
use easy_http.Prelude.Int.{ℤ}
use easy_http.Bytes.{Bytes}
use easy_http.Outcome.{Outcome, ok}
use easy_http.World.{World}
use easy_http.World.Calls.{Call, base_new, base_free, dns_new, dns_free, loop_exit}
use easy_http.World.External.{Platform}
use easy_http.World.Objects.{
  Kind, base, http, config, event, dns, made, freed, AreSafe, IsEven, IsAlive-later,
}
use easy_http.RequestBase.{RequestMethod}
use easy_http.Request.{Request}
use easy_http.Client.{Client, of_ip_port, of_host, create_request, destroy}
use easy_http.Client.Safety.{IsOwner, owned, create_request-KeepsOwner}
use easy_http.Client.Constructing.{
  IsClear, Constructed, EndsConstructed, of_ip_port-Constructed, of_host-Constructed,
}

module _ (pf : Platform) where
  -- One of the two constructors returns the client.
  pub data Constructs (w : World) (self : Client) (v : World) : Type 0 where
    by_port : (ip : Bytes) (port : ℤ) → of_ip_port pf ip port w ≡ (ok self, v) → Constructs w self v
    by_host : (host : Bytes) → of_host pf host w ≡ (ok self, v) → Constructs w self v

  -- Requests are made by the client; CreateRequest may raise an exception.
  pub data Requests (self : Client) (w : World) : World → Type 0 where
    here : Requests self w w
    request :
        {u v : World} (method : RequestMethod) (path : Bytes) (handler : ℕ) (is_chunked : Bool)
        (r : Outcome Request)
        → Requests self w u
        → create_request pf method path handler is_chunked self u ≡ (r, v)
        → Requests self w v

  module _ (before : List Call) where
    -- What the destructor frees.
    even :
        (b d : ℕ) (calls : List Call)
        → ((kind : Kind) (p : ℕ)
            → made pf kind p calls + freed kind p before
              ≡ freed kind p calls + made pf kind p before + owned b d kind p)
        → IsEven pf before (base_free b ∷ dns_free d ∷ loop_exit b ∷ calls)
    unfolding made freed
    even b d calls balance base p = omega (arith, balance base p)
    even b d calls balance http p = omega (arith, balance http p)
    even b d calls balance config p = omega (arith, balance config p)
    even b d calls balance event p = omega (arith, balance event p)
    even b d calls balance dns p = omega (arith, balance dns p)

    module _ (some_base : (calls : List Call) → (pf.pointer calls base_new == 0) ≡ false)
        (some_dns : (calls : List Call) (b : ℕ) → (pf.pointer calls (dns_new b) == 0) ≡ false) where
      Constructs-Constructed :
          (self : Client) (w v : World)
          → IsClear pf before w.calls
          → Constructs w self v
          → Constructed pf before self v
      Constructs-Constructed self w v clear (by_port ip port e) =
          subst (EndsConstructed pf before) e
            (of_ip_port-Constructed pf before some_base some_dns ip port w clear)
      Constructs-Constructed self w v clear (by_host host e) =
          subst (EndsConstructed pf before) e
            (of_host-Constructed pf before some_base some_dns host w clear)

    Requests-Constructed :
        (self : Client) {w v : World}
        → Requests self w v
        → Constructed pf before self w
        → Constructed pf before self v
    Requests-Constructed self here owns = owns
    Requests-Constructed self (request method path handler is_chunked r rest e) owns =
        let (own, no_conn) = Requests-Constructed self rest owns in
        let kept =
          (create_request-KeepsOwner pf before self.e_base self.e_dns method handler is_chunked self
              refl refl path).at
            _ own in
        (subst (λ p. IsOwner pf before self.e_base self.e_dns p.1.calls) e kept, no_conn)

    destroy-IsClear :
        (self : Client) (w : World)
        → Constructed pf before self w
        → ((destroy self w).0 ≡ ok tt) × IsClear pf before (destroy self w).1.calls
    unfolding destroy AreSafe made freed
    destroy-IsClear self w (own, no_conn) =
        let b = self.e_base in
        let d = self.e_dns in
        let c1 = loop_exit b ∷ w.calls in
        let c2 = dns_free d ∷ c1 in
        let base1 = IsAlive-later pf base b (loop_exit b) w.calls refl own.base_alive in
        let base2 = IsAlive-later pf base b (dns_free d) c1 refl base1 in
        let dns1 = IsAlive-later pf dns d (loop_exit b) w.calls refl own.dns_alive in
        rw (own.base_alive.0, own.dns_alive.0, no_conn)
          (refl, ((base2, (dns1, (own.base_alive, own.safe))), even b d w.calls own.balance))

  -- If libevent always gives an event base and a DNS base, then in the life of a client, from one of its
  -- constructors over any requests that CreateRequest makes or refuses to its destructor, every call is
  -- made of bases that libevent made and that are not freed; and the destructor returns, with all bases
  -- freed that the constructor had made, just as often as they were made.
  pub destroy-IsEven :
      ((calls : List Call) → (pf.pointer calls base_new == 0) ≡ false)
      → ((calls : List Call) (b : ℕ) → (pf.pointer calls (dns_new b) == 0) ≡ false)
      → (self : Client) (w v u : World) → AreSafe pf w.calls
      → Constructs w self v
      → Requests self v u
      → ((destroy self u).0 ≡ ok tt)
        × AreSafe pf (destroy self u).1.calls
        × IsEven pf w.calls (destroy self u).1.calls
  destroy-IsEven some_base some_dns self w v u safe constructs requests =
      let constructed =
        Constructs-Constructed w.calls some_base some_dns self w v (safe, λ kind p. omega arith)
          constructs in
      let (returns, clear) =
        destroy-IsClear w.calls self u (Requests-Constructed w.calls self requests constructed) in
      (returns, clear.0, clear.1)
