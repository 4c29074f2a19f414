-- ===== src/Server/Lifecycle/Safety.antt =====
-- The event base, the HTTP server, the configuration and the event for SIGINT of a server that is
-- started and stopped.
pub mod Starting
use easy_http.Prelude.{ℕ, ◌==◌, ◌≡◌, refl, List, [], ◌∷◌, true, false, Bool-cases, inl, inr}
use easy_http.Prelude.Int.{ℤ, pos, negsuc, eq_ℤ}
use easy_http.Bytes.{c_str}
use easy_http.Outcome.{Outcome, ok, throw, undefined}
use easy_http.World.{World, continue}
use easy_http.World.Calls.{
  Call, CmdType, req_get, req_post, req_options, req_put, req_delete, req_patch, ignore_sigpipe,
  config_new, config_free, use_pthreads, base_new, http_new, set_allowed_methods, set_gencb,
  set_max_body_size, bind_socket, evsignal_new, event_add, dispatch, getsockname, event_free,
  loop_exit, http_free,
}
use easy_http.World.External.{Platform}
use easy_http.World.Objects.{
  base, http, config, event, frees, Needs, IsAlive, AreSafe, IsAlive-later, made-IsAlive,
}
use easy_http.Server.{Server}
use easy_http.Server.Lifecycle.{
  shown, shown_family, display_listen_sock, run_loop, start_signal, start_socket, start_http,
  start_base, start_threads, start, stop,
}

module _ (pf : Platform) where
  abbrev IsHeld : ℕ → ℕ → List Call → Type 0
  IsHeld b h calls =
      ((b == 0) ≡ false → IsAlive pf base b calls) × ((h == 0) ≡ false → IsAlive pf http h calls)

  -- All calls were safe; and while the server is started, its pointers that are not NULL lead to
  -- objects that are there.
  abbrev pub IsSound : Server → World → Type 0
  IsSound s w = AreSafe pf w.calls × (s.is_started ≡ true → IsHeld s.e_base s.e_http_server w.calls)

  abbrev pub EndsSound : Outcome (ℤ × Server) × World → Type 0
  EndsSound (ok (r, s), w) = IsSound s w
  EndsSound (throw e, w) = AreSafe pf w.calls
  EndsSound (undefined, w) = AreSafe pf w.calls

  -- What Start has once it has made the HTTP server.
  pub record IsReady (b h g : ℕ) (calls : List Call) : Type 0 where
    pub safe : AreSafe pf calls
    pub base_alive : IsAlive pf base b calls
    pub http_alive : IsAlive pf http h calls
    pub config_alive : IsAlive pf config g calls

  module _ (b h g : ℕ) where
    pub IsReady-later :
        (c : Call) (calls : List Call)
        → frees base b c ≡ 0
        → frees http h c ≡ 0
        → frees config g c ≡ 0
        → Needs pf c calls
        → IsReady b h g calls
        → IsReady b h g (c ∷ calls)
    unfolding AreSafe
    IsReady-later c calls e_base e_http e_config needs ready = record {
      safe = (needs, ready.safe);
      base_alive = IsAlive-later pf base b c calls e_base ready.base_alive;
      http_alive = IsAlive-later pf http h c calls e_http ready.http_alive;
      config_alive = IsAlive-later pf config g c calls e_config ready.config_alive;
    }

  pub ready-IsSound :
      (g : ℕ) (s : Server) (w : World) → IsReady s.e_base s.e_http_server g w.calls → IsSound s w
  ready-IsSound g s w ready =
      (ready.safe, λ started. (λ some_base. ready.base_alive, λ some_http. ready.http_alive))

  -- A call that frees neither the base nor the HTTP server.
  pub IsHeld-later :
      (b h : ℕ) (c : Call) (calls : List Call)
      → frees base b c ≡ 0
      → frees http h c ≡ 0
      → IsHeld b h calls
      → IsHeld b h (c ∷ calls)
  IsHeld-later b h c calls e_base e_http held = (
    λ some_base. IsAlive-later pf base b c calls e_base (held.0 some_base),
    λ some_http. IsAlive-later pf http h c calls e_http (held.1 some_http),
  )

  pub IsSound-later :
      (s : Server) (c : Call) (w : World)
      → frees base s.e_base c ≡ 0
      → frees http s.e_http_server c ≡ 0
      → Needs pf c w.calls
      → IsSound s w
      → IsSound s (record w { calls = c ∷ w.calls })
  unfolding AreSafe
  IsSound-later s c w e_base e_http needs sound = (
    (needs, sound.0),
    λ started. IsHeld-later s.e_base s.e_http_server c w.calls e_base e_http (sound.1 started),
  )

  -- Stop of a server that is started, with a base.
  stop_base-EndsSound :
      (s : Server) (w : World)
      → s.is_started ≡ true
      → (s.e_base == 0) ≡ false
      → IsSound s w
      → EndsSound (stop s w)
  unfolding stop AreSafe
  stop_base-EndsSound s w e some_base sound =
      let held = sound.1 e in
      let calls = loop_exit s.e_base ∷ w.calls in
      let held1 =
        IsHeld-later s.e_base s.e_http_server (loop_exit s.e_base) w.calls refl refl held in
      let safe1 : AreSafe pf calls = (held.0 some_base, sound.0) in
      elim (Bool-cases (s.e_http_server == 0)) [
        | inl no_http ↦ rw (e, some_base, no_http) ((held1.0 some_base, safe1), λ started. cc)
        | inr some_http ↦
            let alive =
              IsAlive-later pf base s.e_base (http_free s.e_http_server) calls refl
                (held1.0 some_base) in
            rw (e, some_base, some_http) ((alive, (held1.1 some_http, safe1)), λ started. cc)
      ]

  pub stop-EndsSound : (s : Server) (w : World) → IsSound s w → EndsSound (stop s w)
  unfolding stop AreSafe
  stop-EndsSound s w sound = elim (Bool-cases s.is_started) [
    | inr e ↦ rw e (sound.0, λ started. cc)
    | inl e ↦ elim (Bool-cases (s.e_base == 0)) [
      | inr some_base ↦ stop_base-EndsSound s w e some_base sound
      | inl no_base ↦ elim (Bool-cases (s.e_http_server == 0)) [
        | inl no_http ↦ rw (e, no_base, no_http) (sound.0, λ started. cc)
        | inr some_http ↦
            rw (e, no_base, some_http) (((sound.1 e).1 some_http, sound.0), λ started. cc)
      ]
    ]
  ]
