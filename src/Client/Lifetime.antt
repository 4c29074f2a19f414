-- ===== src/Client/Lifetime.antt =====
-- The ports and the resources of a server and a client from their constructors on.
use mathlib.Core.Path.{subst}
use easy_http.Prelude.{
  zero, suc, ◌+◌, ◌*◌, ◌/◌, ◌∷◌, ℕ, ◌<◌, ◌^◌, ◌==◌, ◌≡◌, arith, Option, none, some, false, refl,
  Bool-cases, inl, inr, ◌||◌,
}
use easy_http.Prelude.Int.{ℤ, pos, negsuc, to_uint16, eq_ℤ, ltb_ℤ}
use easy_http.Bytes.{Bytes, text, c_str}
use easy_http.Outcome.{ok, throw, runtime_error, invalid_argument}
use easy_http.RequestBase.Fields.{url_max}
use easy_http.World.{World, ask, emit, call_ptr}
use easy_http.World.Yields.{OfResult, Yields, bind-Yields, if-Yields, raise-Yields}
use easy_http.World.Calls.{uri_new, ignore_sigpipe, uri_free, uri_parse}
use easy_http.World.External.{Platform}
use easy_http.Server.{new_server}
use easy_http.Client.{
  Client, init, of_ip_port, of_uri_host, of_uri_scheme, of_host, set_uri, is_null, port_or_80,
}
use easy_http.Client.Uris.{uri_frees}
use easy_http.World.Count.{total}

-- The number is the rest of an integer modulo 2^16.
abbrev pub IsRest : ℤ → ℕ → Type 0
IsRest (pos n) p = (p < 2 ^ 16) × ((k : ℕ) × (n ≡ p + k * 2 ^ 16))
IsRest (negsuc n) p = (p < 2 ^ 16) × ((k : ℕ) × (p + n + 1 ≡ k * 2 ^ 16))

-- The port that a client keeps for the one that libevent read: -1 stands for no port.
abbrev pub IsPortOf : ℤ → ℕ → Type 0
IsPortOf (negsuc zero) p = p ≡ 80
IsPortOf (negsuc (suc n)) p = IsRest (negsuc (suc n)) p
IsPortOf (pos n) p = IsRest (pos n) p

to_uint16-IsRest : (z : ℤ) → IsRest z (to_uint16 z)
to_uint16-IsRest (pos n) = (omega arith, (n / 2 ^ 16, omega arith))
to_uint16-IsRest (negsuc n) = (omega arith, (n / 2 ^ 16 + 1, omega arith))

module _ (pf : Platform) where
  port_or_80-IsPortOf : (z : ℤ) → IsPortOf z (port_or_80 pf z)
  port_or_80-IsPortOf (negsuc zero) = refl
  port_or_80-IsPortOf (negsuc (suc n)) =
      let given : (1 == 0 + suc (suc n)) ≡ false = ground arith in
      rw given (to_uint16-IsRest (negsuc (suc n)))
  port_or_80-IsPortOf (pos n) =
      let given : (n + 1 == 0) ≡ false = ground arith in rw given (to_uint16-IsRest (pos n))

  module _ (P : ℕ → Type 0) where
    -- The port of the client.
    abbrev pub HasPort : Client → Type 0
    HasPort self = P self.http_port

    init-HasPort :
        (port : ℕ) (scheme host : Bytes) → P port → Yields HasPort (init pf port scheme host)
    unfolding init
    init-HasPort port scheme host h = record {
      at = λ w. elim (Bool-cases (eq_ℤ (pf.answer w.calls ignore_sigpipe) (negsuc 0))) [
        | inl e ↦ rw e tt
        | inr e ↦ rw e h
      ];
    }

    of_ip_port-HasPort :
        (ip : Bytes) (port : ℤ) → P (to_uint16 port) → Yields HasPort (of_ip_port pf ip port)
    unfolding of_ip_port
    of_ip_port-HasPort ip port h = bind-Yields HasPort (call_ptr pf uri_new) _ (λ uri.
        bind-Yields HasPort (set_uri pf uri ip port (text "http")) _ (λ r.
          bind-Yields HasPort (ask (λ h. pf.uri_join h uri url_max)) _ (λ joined.
            if-Yields HasPort (ltb_ℤ r (pos 0) || is_null joined) _ _
              (bind-Yields HasPort (emit (uri_free uri)) _
                (λ _. raise-Yields HasPort (runtime_error (text "Invalid ip or port"))))
              (λ _. init-HasPort (to_uint16 port) (text "http") ip h))))

    of_uri_host-HasPort :
        (uri port : ℕ) (scheme : Bytes) (host : Option Bytes)
        → P port
        → Yields HasPort (of_uri_host pf uri port scheme host)
    unfolding of_uri_host
    of_uri_host-HasPort uri port scheme none h =
        raise-Yields HasPort (invalid_argument (text "Invalid host!"))
    of_uri_host-HasPort uri port scheme (some host) h =
        bind-Yields HasPort (emit (uri_free uri)) _ (λ _. init-HasPort port scheme host h)

    of_uri_scheme-HasPort :
        (uri port : ℕ) (scheme : Option Bytes)
        → P port
        → Yields HasPort (of_uri_scheme pf uri port scheme)
    unfolding of_uri_scheme
    of_uri_scheme-HasPort uri port none h =
        raise-Yields HasPort (invalid_argument (text "URL scheme was not set!"))
    of_uri_scheme-HasPort uri port (some scheme) h =
        bind-Yields HasPort (ask (λ h. pf.uri_host h uri)) _
          (λ host. of_uri_host-HasPort uri port scheme host h)

  -- The port that libevent reads from the URI of Client(host).
  abbrev pub read_port : Bytes → World → ℤ
  read_port host w =
      pf.uri_port (uri_parse (c_str host) false ∷ w.calls)
        (pf.pointer w.calls (uri_parse (c_str host) false))

  of_host-HasPort :
      (host : Bytes) (w : World)
      → OfResult (HasPort (IsPortOf (read_port host w))) (of_host pf host w)
  unfolding of_host
  of_host-HasPort host w =
      elim (Bool-cases (pf.pointer w.calls (uri_parse (c_str host) false) == 0)) [
        | inl e ↦ rw e tt
        | inr e ↦ rw e (
            (of_uri_scheme-HasPort (IsPortOf (read_port host w)) _ _ _
                (port_or_80-IsPortOf (read_port host w))).at
              (record w { calls = uri_parse (c_str host) false ∷ w.calls }))
      ]

  -- The port that a server keeps is the rest modulo 2^16 of the one it is given, and so is the port
  -- of the client that Client(ip, port) returns; the client that Client(host) returns keeps port 80
  -- if libevent reads -1 from the URI, and else the rest modulo 2^16 of what it reads.
  pub http_port-IsRest :
      (ip host : Bytes) (port : ℤ) (by_port by_host : Client) (w u v : World)
      → of_ip_port pf ip port w ≡ (ok by_port, u)
      → of_host pf host w ≡ (ok by_host, v)
      → IsRest port (new_server ip port).http_port
        × IsRest port by_port.http_port
        × IsPortOf (read_port host w) by_host.http_port
  unfolding new_server
  http_port-IsRest ip host port by_port by_host w u v made1 made2 = (
    to_uint16-IsRest port,
    subst (OfResult (HasPort (IsRest port))) made1
        ((of_ip_port-HasPort (IsRest port) ip port (to_uint16-IsRest port)).at w),
    subst (OfResult (HasPort (IsPortOf (read_port host w)))) made2 (of_host-HasPort host w),
  )

  -- If Client(ip, port) returns, and Client(host) refuses a URI for a missing scheme or host, then the
  -- URIs that the two constructors made were not freed.
  pub uri_leaks :
      (ip host message : Bytes) (port : ℤ) (self : Client) (w u v : World)
      → of_ip_port pf ip port w ≡ (ok self, u)
      → of_host pf host w ≡ (throw (invalid_argument message), v)
      → (uri_frees u.calls ≡ uri_frees w.calls) × (uri_frees v.calls ≡ uri_frees w.calls)
  unfolding of_ip_port set_uri of_host of_uri_scheme of_uri_host init total
  uri_leaks ip host message port self w u v made refused = (ground arith, ground arith)
