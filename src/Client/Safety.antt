-- ===== src/Client/Safety.antt =====
-- The event base and the DNS base of a client: from its constructor, over the requests that it makes,
-- to its destructor.
use easy_http.Prelude.{
  ℕ, ◌+◌, ◌==◌, ◌≡◌, refl, List, ◌∷◌, ◌++◌, Option, none, some, Bool, true, false, if◌then◌else◌,
}
use easy_http.Prelude.Int.{ℤ, pos, ltb_ℤ, eq_ℤ, ◌+ℤ◌}
use easy_http.Bytes.{Bytes, text, c_str}
use easy_http.Outcome.{runtime_error}
use easy_http.World.{
  M, ◌>>=◌, emit, call_ptr, call_int, pure, raise, ask, undefined_behaviour, new_container,
  put_container, on_throw,
}
use easy_http.World.Calls.{
  Call, uri_parse, uri_free, uri_set_host, uri_set_port, uri_set_scheme, request_new,
  set_chunked_cb, set_error_cb, add_header, connection_new, free_on_completion,
}
use easy_http.World.External.{Platform}
use easy_http.World.Objects.{
  Kind, base, dns, made, freed, Needs, IsAlive, AreSafe, IsPlain, made-IsPlain, freed-IsPlain,
  IsAlive-IsPlain,
}
use easy_http.World.Keeps.{
  on_throw-Keeps, Keeps, Allows, bind-Keeps, if-Keeps, emit-Keeps, call_int-Keeps, call_ptr-Keeps,
}
use easy_http.Queries.{queries}
use easy_http.RequestBase.{RequestBase, RequestMethod, get, of_url, set_chunked}
use easy_http.RequestBase.Fields.{url_max}
use easy_http.RequestBase.Headers.{push_header}
use easy_http.Request.{of_connection}
use easy_http.Client.Requests
use easy_http.Client.{free_uri, Client, set_uri, connect, with_url, create_request}

-- What a client owns: its base and its DNS base.
abbrev pub owned : ℕ → ℕ → Kind → ℕ → ℕ
owned b d base p = if b == p then 1 else 0
owned b d dns p = if d == p then 1 else 0
owned b d _ p = 0

module _ (pf : Platform) where
  -- All calls were safe, the two are there, and they are what was made and not freed since the first
  -- calls.
  pub record IsOwner (before : List Call) (b d : ℕ) (calls : List Call) : Type 0 where
    pub safe : AreSafe pf calls
    pub base_alive : IsAlive pf base b calls
    pub dns_alive : IsAlive pf dns d calls
    pub balance :
        (kind : Kind) (p : ℕ)
        → made pf kind p calls + freed kind p before
          ≡ freed kind p calls + made pf kind p before + owned b d kind p

  module _ (before : List Call) (b d : ℕ) where
    plain-IsOwner :
        (c : Call) (calls : List Call)
        → IsPlain pf c
        → Needs pf c calls
        → IsOwner before b d calls
        → IsOwner before b d (c ∷ calls)
    unfolding AreSafe
    plain-IsOwner c calls plain needs own = record {
      safe = (needs, own.safe);
      base_alive = IsAlive-IsPlain pf base b c calls plain own.base_alive;
      dns_alive = IsAlive-IsPlain pf dns d c calls plain own.dns_alive;
      balance = λ kind p.
          rw (made-IsPlain pf kind p c calls plain, freed-IsPlain pf kind p c calls plain)
            (own.balance kind p);
    }

    abbrev I : List Call → Type 0
    I calls = IsOwner before b d calls

    abbrev KeepsOwner : {A : Type 0} → M A → Type 0
    KeepsOwner m = Keeps I m

    -- A call that makes, frees and needs nothing.
    abbrev IsFree : Call → Type 0
    IsFree c = IsPlain pf c × ((calls : List Call) → Needs pf c calls)

    free : (c : Call) → IsFree c → Allows I c
    free c h calls = plain-IsOwner c calls h.0 (h.1 calls)

    then_ptr :
        {B : Type 0} (c : Call) (f : ℕ → M B)
        → IsFree c
        → ((p : ℕ) → KeepsOwner (f p))
        → KeepsOwner (call_ptr pf c >>= f)
    then_ptr c f h q = bind-Keeps I (call_ptr pf c) f (call_ptr-Keeps I pf c (free c h)) q

    then_int :
        {B : Type 0} (c : Call) (f : ℤ → M B)
        → IsFree c
        → ((r : ℤ) → KeepsOwner (f r))
        → KeepsOwner (call_int pf c >>= f)
    then_int c f h q = bind-Keeps I (call_int pf c) f (call_int-Keeps I pf c (free c h)) q

    then_emit :
        {B : Type 0} (c : Call) (f : Unit {0} → M B)
        → IsFree c
        → ((a : Unit {0}) → KeepsOwner (f a))
        → KeepsOwner (emit c >>= f)
    then_emit c f h q = bind-Keeps I (emit c) f (emit-Keeps I c (free c h)) q

    set_chunked-KeepsOwner :
        (is_chunked : Bool) (e_request : ℕ) → KeepsOwner (set_chunked pf is_chunked e_request)
    set_chunked-KeepsOwner true e_request =
        emit-Keeps I (set_chunked_cb e_request) (free _ ((refl, refl), λ calls. tt))
    set_chunked-KeepsOwner false e_request = record { at = λ w own. own }

    of_url-KeepsOwner :
        (url : Bytes) (handler : ℕ) (is_chunked : Bool)
        → KeepsOwner (of_url pf url handler is_chunked)
    unfolding of_url queries
    of_url-KeepsOwner url handler is_chunked =
        then_ptr (uri_parse (c_str url) false) _ ((refl, refl), λ calls. tt)
          (λ uri.
            bind-Keeps I new_container _ (record { at = λ w own. own })
              (λ con.
                bind-Keeps I
                  (put_container con
                    (record { is_complete = false; e_con = 0; response_handler = handler }))
                  _ (record { at = λ w own. own })
                  (λ _.
                    then_ptr (request_new con) _ ((refl, refl), λ calls. tt)
                      (λ e_request.
                        bind-Keeps I (set_chunked pf is_chunked e_request) _
                          (set_chunked-KeepsOwner is_chunked e_request)
                          (λ _.
                            then_emit (set_error_cb e_request) _ ((refl, refl), λ calls. tt)
                              (λ _.
                                bind-Keeps I (queries pf uri)
                                  (λ q.
                                    pure
                                      (Requests.made pf get handler is_chunked e_request uri con q))
                                  (record { at = λ w own. own })
                                  (λ q. record { at = λ w own. own })))))))

    push_header-KeepsOwner :
        (self : RequestBase) (key value : Bytes) → KeepsOwner (push_header pf self key value)
    unfolding push_header
    push_header-KeepsOwner self key value =
        then_int (add_header self.e_request (c_str key) (c_str value)) _ ((refl, refl), λ calls. tt)
          (λ r.
            if-Keeps I (eq_ℤ r (pos 0)) (pure tt)
              (raise (runtime_error (text "Cannot set header " ++ key)))
              (record { at = λ w own. own }) (λ _. record { at = λ w own. own }))

    set_uri-KeepsOwner :
        (uri : ℕ) (host : Bytes) (port : ℤ) (scheme : Bytes)
        → KeepsOwner (set_uri pf uri host port scheme)
    unfolding set_uri
    set_uri-KeepsOwner uri host port scheme =
        then_int (uri_set_host uri (c_str host)) _ ((refl, refl), λ calls. tt)
          (λ x.
            then_int (uri_set_port uri port) _ ((refl, refl), λ calls. tt)
              (λ y.
                then_int (uri_set_scheme uri (c_str scheme)) (λ z. pure (x +ℤ y +ℤ z))
                  ((refl, refl), λ calls. tt) (λ z. record { at = λ w own. own })))

    module _ (method : RequestMethod) (handler : ℕ) (is_chunked : Bool) (self : Client)
        (same_base : self.e_base ≡ b) (same_dns : self.e_dns ≡ d) where
      connect-KeepsOwner :
          (url : Bytes) → KeepsOwner (connect pf method url handler is_chunked self)
      unfolding connect of_connection
      connect-KeepsOwner url =
          let making =
            connection_new self.e_base self.e_dns (c_str self.http_host) self.http_port in
          bind-Keeps I (call_ptr pf making) _
            (call_ptr-Keeps I pf making (λ calls own.
              plain-IsOwner making calls (refl, refl)
                (rw (same_base, same_dns) (own.base_alive, own.dns_alive)) own))
            (λ e_conn.
              if-Keeps I (e_conn == 0) undefined_behaviour _ (record { at = λ w own. own })
                (λ _.
                  then_emit (free_on_completion e_conn) _ ((refl, refl), λ calls. tt)
                    (λ _.
                      bind-Keeps I (of_connection pf e_conn method url handler is_chunked) _
                        (bind-Keeps I (of_url pf url handler is_chunked) _
                          (of_url-KeepsOwner url handler is_chunked)
                          (λ made_base. record { at = λ w own. own }))
                        (λ request.
                          bind-Keeps I
                            (on_throw (free_uri pf request)
                              (push_header pf request.base (text "Host") self.http_host))
                            (λ _. pure request)
                            (on_throw-Keeps I (free_uri pf request)
                              (push_header pf request.base (text "Host") self.http_host)
                              (push_header-KeepsOwner request.base (text "Host") self.http_host)
                              (λ w.
                                free (uri_free request.base.e_uri) ((refl, refl), λ calls. tt)
                                  w.calls))
                            (λ _. record { at = λ w own. own })))))

      with_url-KeepsOwner :
          (uri : ℕ) (r : ℤ) (joined : Option Bytes)
          → KeepsOwner (with_url pf uri method handler is_chunked self r joined)
      unfolding with_url
      with_url-KeepsOwner uri r none = record {
        at = λ w. free (uri_free uri) ((refl, refl), λ calls. tt) w.calls;
      }
      with_url-KeepsOwner uri r (some url) =
          then_emit (uri_free uri) _ ((refl, refl), λ calls. tt)
            (λ _.
              if-Keeps I (ltb_ℤ r (pos 0)) (raise (runtime_error (text "Could not set host info!")))
                _ (record { at = λ w own. own }) (λ _. connect-KeepsOwner (c_str url)))

      pub create_request-KeepsOwner :
          (path : Bytes) → KeepsOwner (create_request pf method path handler is_chunked self)
      unfolding create_request
      create_request-KeepsOwner path =
          then_ptr (uri_parse (c_str path) false) _ ((refl, refl), λ calls. tt)
            (λ uri.
              if-Keeps I (uri == 0) (raise (runtime_error (text "Invalid path"))) _
                (record { at = λ w own. own })
                (λ _.
                  bind-Keeps I (set_uri pf uri self.http_host (pos self.http_port) self.http_scheme)
                    _ (set_uri-KeepsOwner uri self.http_host (pos self.http_port) self.http_scheme)
                    (λ r.
                      bind-Keeps I (ask (λ h. pf.uri_join h uri url_max)) _
                        (record { at = λ w own. own })
                        (λ joined. with_url-KeepsOwner uri r joined))))
