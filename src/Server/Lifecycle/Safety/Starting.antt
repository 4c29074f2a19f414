-- ===== src/Server/Lifecycle/Safety/Starting.antt =====
-- Start, stage by stage: it leaves the server sound.
use easy_http.Prelude.{ℕ, ◌==◌, ◌≡◌, refl, List, [], ◌∷◌, false, Bool-cases, inl, inr}
use easy_http.Prelude.Int.{ℤ, pos, negsuc, eq_ℤ}
use easy_http.Bytes.{c_str}
use easy_http.Outcome.{ok}
use easy_http.World.{World, continue}
use easy_http.World.Calls.{
  Call, CmdType, req_get, req_post, req_options, req_put, req_delete, req_patch, ignore_sigpipe,
  config_new, config_free, use_pthreads, base_new, http_new, set_allowed_methods, set_gencb,
  set_max_body_size, bind_socket, evsignal_new, event_add, dispatch, getsockname, event_free,
}
use easy_http.World.External.{Platform}
use easy_http.World.Objects.{
  base, http, config, event, IsAlive, AreSafe, IsAlive-later, made-IsAlive,
}
use easy_http.Server.{Server}
use easy_http.Server.Lifecycle.{
  shown, shown_family, display_listen_sock, run_loop, start_signal, start_socket, start_http,
  start_base, start_threads, start,
}
use easy_http.Server.Lifecycle.Safety.{
  IsSound, EndsSound, IsReady, IsReady-later, ready-IsSound, IsSound-later,
}

module _ (pf : Platform) where
  run_loop-EndsSound :
      (g t : ℕ) (s : Server) (w : World)
      → IsReady pf s.e_base s.e_http_server g w.calls
      → IsAlive pf event t w.calls
      → EndsSound pf (run_loop pf g t s w)
  unfolding run_loop AreSafe
  run_loop-EndsSound g t s w ready alive =
      let dispatched =
        IsReady-later pf s.e_base s.e_http_server g (dispatch s.e_base) w.calls refl refl refl
          ready.base_alive ready in
      let base_later =
        IsAlive-later pf base s.e_base (config_free g) (dispatch s.e_base ∷ w.calls) refl
          dispatched.base_alive in
      let http_later =
        IsAlive-later pf http s.e_http_server (config_free g) (dispatch s.e_base ∷ w.calls) refl
          dispatched.http_alive in
      let event_later =
        IsAlive-later pf event t (config_free g) (dispatch s.e_base ∷ w.calls) refl
          (IsAlive-later pf event t (dispatch s.e_base) w.calls refl alive) in
      (
        (event_later, (dispatched.config_alive, dispatched.safe)),
        λ started. (
          λ some_base. IsAlive-later pf base s.e_base (event_free t) _ refl base_later,
          λ some_http. IsAlive-later pf http s.e_http_server (event_free t) _ refl http_later,
        ),
      )

  start_signal-EndsSound :
      (g : ℕ) (s : Server) (w : World)
      → IsReady pf s.e_base s.e_http_server g w.calls
      → EndsSound pf (start_signal pf g s w)
  unfolding start_signal
  start_signal-EndsSound g s w ready =
      let t = pf.pointer w.calls (evsignal_new s.e_base) in
      let w1 : World = record w { calls = evsignal_new s.e_base ∷ w.calls } in
      let w2 : World = record w { calls = event_add t ∷ evsignal_new s.e_base ∷ w.calls } in
      let ready1 =
        IsReady-later pf s.e_base s.e_http_server g (evsignal_new s.e_base) w.calls refl refl refl
          ready.base_alive ready in
      elim (Bool-cases (t == 0)) [
        | inl e ↦ rw e (ready-IsSound pf g s w1 ready1)
        | inr e ↦
            let made =
              made-IsAlive pf event (evsignal_new s.e_base) w.calls refl e ready.base_alive
                ready.safe in
            let ready2 =
              IsReady-later pf s.e_base s.e_http_server g (event_add t) w1.calls refl refl refl made
                ready1 in
            elim (Bool-cases (eq_ℤ (pf.answer w1.calls (event_add t)) (pos 0))) [
              | inl k ↦
                  rw (e, k)
                    (run_loop-EndsSound g t s w2 ready2
                      (IsAlive-later pf event t (event_add t) w1.calls refl made))
              | inr k ↦ rw (e, k) (ready-IsSound pf g s w2 ready2)
            ]
      ]

  -- display_listen_sock makes one call.
  pub shown-calls :
      (handle : ℕ) (w : World)
      → (r : ℤ) × (display_listen_sock pf handle w
          ≡ (ok r, record w { calls = getsockname handle ∷ w.calls }))
  unfolding display_listen_sock
  shown-calls handle w = elim (Bool-cases (eq_ℤ (pf.answer w.calls (getsockname handle)) (pos 0))) [
    | inl e ↦
        let calls = getsockname handle ∷ w.calls in
        (
          shown_family pf (pf.socket_family calls handle) (shown pf (pf.inet_ntop calls handle)),
          rw e refl,
        )
    | inr e ↦ (pos 1, rw e refl)
  ]

  abbrev allowed : List CmdType
  allowed = req_get ∷ req_post ∷ req_options ∷ req_put ∷ req_delete ∷ req_patch ∷ []

  abbrev pub binding : Server → Call
  binding s = bind_socket s.e_http_server (c_str s.http_ip) s.http_port

  -- The calls that set the HTTP server up, before its socket is bound.
  abbrev pub prepared : Server → List Call → List Call
  prepared s calls =
      set_max_body_size s.e_http_server 6410241024
      ∷ set_gencb s.e_http_server
      ∷ set_allowed_methods s.e_http_server allowed
      ∷ calls

  prepared-IsReady :
      (g : ℕ) (s : Server) (calls : List Call)
      → IsReady pf s.e_base s.e_http_server g calls
      → IsReady pf s.e_base s.e_http_server g (prepared s calls)
  prepared-IsReady g s calls ready =
      let later = IsReady-later pf s.e_base s.e_http_server g in
      let r1 =
        later (set_allowed_methods s.e_http_server allowed) _ refl refl refl ready.http_alive
          ready in
      let r2 = later (set_gencb s.e_http_server) _ refl refl refl r1.http_alive r1 in
      later (set_max_body_size s.e_http_server 6410241024) _ refl refl refl r2.http_alive r2

  start_socket-EndsSound :
      (g : ℕ) (s : Server) (w : World)
      → IsReady pf s.e_base s.e_http_server g w.calls
      → EndsSound pf (start_socket pf g s w)
  unfolding start_socket
  start_socket-EndsSound g s w ready =
      let handle = pf.pointer (prepared s w.calls) (binding s) in
      let w1 : World = record w { calls = binding s ∷ prepared s w.calls } in
      let w2 : World = record w { calls = getsockname handle ∷ w1.calls } in
      let later = IsReady-later pf s.e_base s.e_http_server g in
      let ready0 = prepared-IsReady g s w.calls ready in
      let ready1 = later (binding s) (prepared s w.calls) refl refl refl ready0.http_alive ready0 in
      let ready2 = later (getsockname handle) w1.calls refl refl refl tt ready1 in
      elim (Bool-cases (handle == 0)) [
        | inl e ↦ rw e (ready-IsSound pf g s w1 ready1)
        | inr e ↦
            let (r, shown) = shown-calls handle w1 in
            elim (Bool-cases (eq_ℤ r (pos 0))) [
              | inl k ↦ rw (e, shown, continue, k) (start_signal-EndsSound g s w2 ready2)
              | inr k ↦ rw (e, shown, continue, k) (ready-IsSound pf g s w2 ready2)
            ]
      ]

  start_http-EndsSound :
      (g : ℕ) (s : Server) (w : World)
      → AreSafe pf w.calls
      → IsAlive pf base s.e_base w.calls
      → IsAlive pf config g w.calls
      → EndsSound pf (start_http pf g s w)
  unfolding start_http AreSafe
  start_http-EndsSound g s w safe base_alive config_alive =
      let h = pf.pointer w.calls (http_new s.e_base) in
      let w1 : World = record w { calls = http_new s.e_base ∷ w.calls } in
      let later = IsAlive-later pf base s.e_base (http_new s.e_base) w.calls refl base_alive in
      elim (Bool-cases (h == 0)) [
        | inl e ↦
            rw e ((base_alive, safe), λ started. (λ some_base. later, λ some_http. cc (some_http)))
        | inr e ↦ rw e (
            start_socket-EndsSound g (record s { e_http_server = h }) w1
              (record {
                safe = (base_alive, safe);
                base_alive = later;
                http_alive =
                    made-IsAlive pf http (http_new s.e_base) w.calls refl e base_alive safe;
                config_alive =
                    IsAlive-later pf config g (http_new s.e_base) w.calls refl config_alive;
              }))
      ]

  start_base-EndsSound :
      (g : ℕ) (s : Server) (w : World)
      → IsSound pf s w
      → IsAlive pf config g w.calls
      → EndsSound pf (start_base pf g s w)
  unfolding start_base AreSafe
  start_base-EndsSound g s w sound config_alive =
      let b = pf.pointer w.calls base_new in
      let w1 : World = record w { calls = base_new ∷ w.calls } in
      elim (Bool-cases (b == 0)) [
        | inl e ↦ rw e (
          (tt, sound.0),
          λ started. (
            λ some_base. cc (some_base),
            λ some_http.
                IsAlive-later pf http s.e_http_server base_new w.calls refl
                  ((sound.1 started).1 some_http),
          ),
        )
        | inr e ↦ rw e (
            start_http-EndsSound g (record s { e_base = b }) w1 (tt, sound.0)
              (made-IsAlive pf base base_new w.calls refl e tt sound.0)
              (IsAlive-later pf config g base_new w.calls refl config_alive))
      ]

  pub start-EndsSound :
      (s : Server) (w : World)
      → ((calls : List Call) → (pf.pointer calls config_new == 0) ≡ false)
      → IsSound pf s w
      → EndsSound pf (start pf s w)
  unfolding start start_threads
  start-EndsSound s w some_config sound =
      let w1 : World = record w { calls = ignore_sigpipe ∷ w.calls } in
      let w2 : World = record w { calls = config_new ∷ w1.calls } in
      let w3 : World = record w { calls = use_pthreads ∷ w2.calls } in
      let g = pf.pointer w1.calls config_new in
      let sound1 = IsSound-later pf s ignore_sigpipe w refl refl tt sound in
      let sound3 =
        IsSound-later pf s use_pthreads w2 refl refl tt
          (IsSound-later pf s config_new w1 refl refl tt sound1) in
      let config_alive =
        IsAlive-later pf config g use_pthreads w2.calls refl
          (made-IsAlive pf config config_new w1.calls refl (some_config w1.calls) tt sound1.0) in
      elim (Bool-cases (eq_ℤ (pf.answer w.calls ignore_sigpipe) (negsuc 0))) [
        | inl e ↦ rw e sound1
        | inr e ↦ elim (Bool-cases (eq_ℤ (pf.answer w2.calls use_pthreads) (pos 0))) [
          | inl k ↦ rw (e, k) (start_base-EndsSound g s w3 sound3 config_alive)
          | inr k ↦ rw (e, k) sound3
        ]
      ]
