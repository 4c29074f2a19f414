-- ===== src/Client/Constructing.antt =====
-- What the constructors of a client make.
use easy_http.Prelude.{
  ℕ, ◌+◌, ◌==◌, ◌||◌, ◌≡◌, refl, arith, List, ◌∷◌, Option, none, some, false, Bool-cases, inl, inr,
}
use easy_http.Prelude.Int.{ℤ, pos, negsuc, ltb_ℤ, eq_ℤ, ◌+ℤ◌}
use easy_http.Bytes.{Bytes, text, c_str}
use easy_http.Outcome.{Outcome, ok, throw, undefined}
use easy_http.World.{World, continue}
use easy_http.World.Calls.{
  Call, ignore_sigpipe, base_new, dns_new, uri_parse, uri_free, uri_new, uri_set_host, uri_set_port,
  uri_set_scheme,
}
use easy_http.World.External.{Platform}
use easy_http.World.Objects.{
  Kind, base, http, config, event, dns, made, freed, Needs, AreSafe, IsEven, IsPlain, made-IsPlain,
  freed-IsPlain, IsAlive-later, made-IsAlive,
}
use easy_http.RequestBase.Fields.{url_max}
use easy_http.Client.{
  Client, set_uri, init, is_null, of_uri_host, of_uri_scheme, port_or_80, of_ip_port, of_host,
}
use easy_http.Client.Safety.{IsOwner, owned}

module _ (pf : Platform) where
  module _ (before : List Call) where
    -- All calls were safe, and all was freed that was made since the first calls.
    abbrev pub IsClear : List Call → Type 0
    IsClear calls = AreSafe pf calls × IsEven pf before calls

    plain-IsClear :
        (c : Call) (calls : List Call)
        → IsPlain pf c
        → Needs pf c calls
        → IsClear calls
        → IsClear (c ∷ calls)
    unfolding AreSafe
    plain-IsClear c calls plain needs clear = (
      (needs, clear.0),
      λ kind p.
          rw (made-IsPlain pf kind p c calls plain, freed-IsPlain pf kind p c calls plain)
            (clear.1 kind p),
    )

    -- The client owns its two bases, and has no connection.
    abbrev pub Constructed : Client → World → Type 0
    Constructed self w = IsOwner pf before self.e_base self.e_dns w.calls × (self.e_conn ≡ 0)

    abbrev pub EndsConstructed : Outcome Client × World → Type 0
    EndsConstructed (ok self, w) = Constructed self w
    EndsConstructed (throw e, w) = Unit
    EndsConstructed (undefined, w) = Unit

    -- What Init makes.
    init-balance :
        (calls : List Call)
        → IsEven pf before calls
        → (kind : Kind) (p : ℕ)
        → let c1 = ignore_sigpipe ∷ calls in
          let b = pf.pointer c1 base_new in
          let d = pf.pointer (base_new ∷ c1) (dns_new b) in
          made pf kind p (dns_new b ∷ base_new ∷ c1) + freed kind p before
          ≡ freed kind p (dns_new b ∷ base_new ∷ c1) + made pf kind p before + owned b d kind p
    unfolding made freed
    init-balance calls even base p = omega (arith, even base p)
    init-balance calls even http p = omega (arith, even http p)
    init-balance calls even config p = omega (arith, even config p)
    init-balance calls even event p = omega (arith, even event p)
    init-balance calls even dns p = omega (arith, even dns p)

    module _ (some_base : (calls : List Call) → (pf.pointer calls base_new == 0) ≡ false)
        (some_dns : (calls : List Call) (b : ℕ) → (pf.pointer calls (dns_new b) == 0) ≡ false) where
      init-Constructed :
          (port : ℕ) (scheme host : Bytes) (w : World)
          → IsClear w.calls
          → EndsConstructed (init pf port scheme host w)
      unfolding init AreSafe
      init-Constructed port scheme host w clear =
          let c1 = ignore_sigpipe ∷ w.calls in
          let c2 = base_new ∷ c1 in
          let b = pf.pointer c1 base_new in
          let d = pf.pointer c2 (dns_new b) in
          let clear1 = plain-IsClear ignore_sigpipe w.calls (refl, refl) tt clear in
          let alive = made-IsAlive pf base base_new c1 refl (some_base c1) tt clear1.0 in
          let safe : AreSafe pf c2 = (tt, clear1.0) in
          elim (Bool-cases (eq_ℤ (pf.answer w.calls ignore_sigpipe) (negsuc 0))) [
            | inl e ↦ rw e tt
            | inr e ↦ rw e (
              record {
                safe = (alive, safe);
                base_alive = IsAlive-later pf base b (dns_new b) c2 refl alive;
                dns_alive = made-IsAlive pf dns (dns_new b) c2 refl (some_dns c2 b) alive safe;
                balance = init-balance w.calls clear.1;
              },
              refl,
            )
          ]

      pub of_ip_port-Constructed :
          (ip : Bytes) (port : ℤ) (w : World)
          → IsClear w.calls
          → EndsConstructed (of_ip_port pf ip port w)
      unfolding of_ip_port set_uri
      of_ip_port-Constructed ip port w clear =
          let uri = pf.pointer w.calls uri_new in
          let c1 = uri_new ∷ w.calls in
          let c2 = uri_set_host uri (c_str ip) ∷ c1 in
          let c3 = uri_set_port uri port ∷ c2 in
          let c4 = uri_set_scheme uri (c_str (text "http")) ∷ c3 in
          let r =
            pf.answer c1 (uri_set_host uri (c_str ip))
            +ℤ pf.answer c2 (uri_set_port uri port)
            +ℤ pf.answer c3 (uri_set_scheme uri (c_str (text "http"))) in
          let clear1 = plain-IsClear uri_new w.calls (refl, refl) tt clear in
          let clear2 = plain-IsClear (uri_set_host uri (c_str ip)) c1 (refl, refl) tt clear1 in
          let clear3 = plain-IsClear (uri_set_port uri port) c2 (refl, refl) tt clear2 in
          let clear4 =
            plain-IsClear (uri_set_scheme uri (c_str (text "http"))) c3 (refl, refl) tt clear3 in
          elim (Bool-cases (ltb_ℤ r (pos 0) || is_null (pf.uri_join c4 uri url_max))) [
            | inl e ↦ rw (e, continue) tt
            | inr e ↦ rw e (init-Constructed _ (text "http") ip (record w { calls = c4 }) clear4)
          ]

      of_uri_host-Constructed :
          (uri port : ℕ) (scheme : Bytes) (host : Option Bytes) (w : World)
          → IsClear w.calls
          → EndsConstructed (of_uri_host pf uri port scheme host w)
      unfolding of_uri_host
      of_uri_host-Constructed uri port scheme none w clear = tt
      of_uri_host-Constructed uri port scheme (some host) w clear =
          init-Constructed port scheme host (record w { calls = uri_free uri ∷ w.calls })
            (plain-IsClear (uri_free uri) w.calls (refl, refl) tt clear)

      of_uri_scheme-Constructed :
          (uri port : ℕ) (scheme : Option Bytes) (w : World)
          → IsClear w.calls
          → EndsConstructed (of_uri_scheme pf uri port scheme w)
      unfolding of_uri_scheme
      of_uri_scheme-Constructed uri port none w clear = tt
      of_uri_scheme-Constructed uri port (some scheme) w clear =
          of_uri_host-Constructed uri port scheme (pf.uri_host w.calls uri) w clear

      pub of_host-Constructed :
          (host : Bytes) (w : World) → IsClear w.calls → EndsConstructed (of_host pf host w)
      unfolding of_host
      of_host-Constructed host w clear =
          let uri = pf.pointer w.calls (uri_parse (c_str host) false) in
          let w1 : World = record w { calls = uri_parse (c_str host) false ∷ w.calls } in
          elim (Bool-cases (uri == 0)) [
            | inl e ↦ rw e tt
            | inr e ↦ rw e (
                of_uri_scheme-Constructed uri (port_or_80 pf (pf.uri_port w1.calls uri))
                  (pf.uri_scheme w1.calls uri) w1
                  (plain-IsClear (uri_parse (c_str host) false) w.calls (refl, refl) tt clear))
          ]
