-- ===== src/Server/Lifecycle/Cycle.antt =====
-- A Start that succeeds, and the Stop after it.
use mathlib.Core.Path.{subst}
use easy_http.Prelude.{ℕ, ◌==◌, ◌≡◌, refl, arith, List, ◌∷◌, false, true, Bool-cases, inl, inr}
use easy_http.Prelude.Int.{ℤ, pos, negsuc, eq_ℤ}
use easy_http.Outcome.{Outcome, ok, throw, undefined}
use easy_http.World.{World, continue}
use easy_http.World.Calls.{
  Call, ignore_sigpipe, config_new, config_free, use_pthreads, base_new, base_free, http_new,
  http_free, evsignal_new, event_add, dispatch, getsockname, event_free, loop_exit,
}
use easy_http.World.External.{Platform}
use easy_http.World.Objects.{base, http, config, event, dns, made, freed, IsEven}
use easy_http.Server.{Server}
use easy_http.Server.Lifecycle.{
  run_loop, start_signal, start_socket, start_http, start_base, start_threads, start, stop,
}
use easy_http.Server.Lifecycle.Safety.Starting.{binding, prepared, shown-calls}
use easy_http.Server.Lifecycle.Release.{stop-start_success}

module _ (pf : Platform) where
  -- If the method returned 0, the server has the base b and the HTTP server h, and the calls are these.
  abbrev SucceedsWith : ℕ → ℕ → List Call → Outcome (ℤ × Server) × World → Type 0
  SucceedsWith b h calls (ok (r, s), w) =
      eq_ℤ r (pos 0) ≡ true → (s.e_base ≡ b) × (s.e_http_server ≡ h) × (w.calls ≡ calls)
  SucceedsWith b h calls (throw e, w) = Unit
  SucceedsWith b h calls (undefined, w) = Unit

  -- The calls of the end of Start, after these.
  abbrev signalled : ℕ → ℕ → List Call → List Call
  signalled g b calls =
      let t = pf.pointer calls (evsignal_new b) in
      event_free t ∷ config_free g ∷ dispatch b ∷ event_add t ∷ evsignal_new b ∷ calls

  start_signal-succeeds :
      (g : ℕ) (s : Server) (w : World)
      → SucceedsWith s.e_base s.e_http_server (signalled g s.e_base w.calls) (start_signal pf g s w)
  unfolding start_signal run_loop
  start_signal-succeeds g s w =
      let t = pf.pointer w.calls (evsignal_new s.e_base) in
      elim (Bool-cases (t == 0)) [
        | inl e ↦ rw e (λ k. cc)
        | inr e ↦
            elim (Bool-cases
              (eq_ℤ (pf.answer (evsignal_new s.e_base ∷ w.calls) (event_add t)) (pos 0))) [
                | inl k ↦ rw (e, k) (λ zero. (refl, refl, refl))
                | inr k ↦ rw (e, k) (λ zero. cc)
              ]
      ]

  -- The calls of Start from the HTTP server on.
  abbrev listening : ℕ → Server → List Call → List Call
  listening g s calls = signalled g s.e_base (
      getsockname (pf.pointer (prepared pf s calls) (binding pf s))
      ∷ binding pf s
      ∷ prepared pf s calls)

  start_socket-succeeds :
      (g : ℕ) (s : Server) (w : World)
      → SucceedsWith s.e_base s.e_http_server (listening g s w.calls) (start_socket pf g s w)
  unfolding start_socket
  start_socket-succeeds g s w =
      let handle = pf.pointer (prepared pf s w.calls) (binding pf s) in
      let w1 : World = record w { calls = binding pf s ∷ prepared pf s w.calls } in
      elim (Bool-cases (handle == 0)) [
        | inl e ↦ rw e (λ zero. cc)
        | inr e ↦
            let (r, shown) = shown-calls pf handle w1 in
            elim (Bool-cases (eq_ℤ r (pos 0))) [
              | inl k ↦
                  rw (e, shown, continue, k)
                    (start_signal-succeeds g s (record w { calls = getsockname handle ∷ w1.calls }))
              | inr k ↦ rw (e, shown, continue, k) (λ zero. cc)
            ]
      ]

  -- The calls before the base is made.
  abbrev opening : List Call → List Call
  opening calls = use_pthreads ∷ config_new ∷ ignore_sigpipe ∷ calls

  start-succeeds :
      (s : Server) (w : World)
      → let b = pf.pointer (opening w.calls) base_new in
        let h = pf.pointer (base_new ∷ opening w.calls) (http_new b) in
        let g = pf.pointer (ignore_sigpipe ∷ w.calls) config_new in
        SucceedsWith b h
          (listening g
            (record s { e_base = b; e_http_server = h })
            (http_new b ∷ base_new ∷ opening w.calls))
          (start pf s w)
  unfolding start start_threads start_base start_http
  start-succeeds s w =
      let b = pf.pointer (opening w.calls) base_new in
      let h = pf.pointer (base_new ∷ opening w.calls) (http_new b) in
      let g = pf.pointer (ignore_sigpipe ∷ w.calls) config_new in
      elim (Bool-cases (eq_ℤ (pf.answer w.calls ignore_sigpipe) (negsuc 0))) [
        | inl e ↦ rw e (λ zero. cc)
        | inr e ↦
            elim (Bool-cases
              (eq_ℤ (pf.answer (config_new ∷ ignore_sigpipe ∷ w.calls) use_pthreads) (pos 0))) [
                | inr k ↦ rw (e, k) (λ zero. cc)
                | inl k ↦ elim (Bool-cases (b == 0)) [
                  | inl no_base ↦ rw (e, k, no_base) (λ zero. cc)
                  | inr some_base ↦ elim (Bool-cases (h == 0)) [
                    | inl no_http ↦ rw (e, k, some_base, no_http) (λ zero. cc)
                    | inr some_http ↦
                        rw (e, k, some_base, some_http)
                          (start_socket-succeeds g (record s { e_base = b; e_http_server = h })
                            (record w { calls = http_new b ∷ base_new ∷ opening w.calls }))
                  ]
                ]
              ]
      ]

  -- All calls of such a Start and of the Stop after it.
  abbrev cycle : Server → List Call → List Call
  cycle s calls =
      let b = pf.pointer (opening calls) base_new in
      let h = pf.pointer (base_new ∷ opening calls) (http_new b) in
      let g = pf.pointer (ignore_sigpipe ∷ calls) config_new in
      base_free b
      ∷ http_free h
      ∷ loop_exit b
      ∷ listening g (record s { e_base = b; e_http_server = h })
          (http_new b ∷ base_new ∷ opening calls)

  cycle-IsEven : (s : Server) (calls : List Call) → IsEven pf calls (cycle s calls)
  unfolding made freed
  cycle-IsEven s calls base p = omega arith
  cycle-IsEven s calls http p = omega arith
  cycle-IsEven s calls config p = omega arith
  cycle-IsEven s calls event p = omega arith
  cycle-IsEven s calls dns p = omega arith

  -- If Start of a server that was not started returns 0, then Stop of the server that it leaves returns
  -- 0, marks it as not started, and with it every event base, HTTP server, configuration and event
  -- that Start had made is freed, just as often as it was made.
  pub stop-start-IsEven :
      (s s' : Server) (w w' : World)
      → s.is_started ≡ false
      → start pf s w ≡ (ok (pos 0, s'), w')
      → (w'' : World) × (stop s' w' ≡ (ok (pos 0, record s' { is_started = false }), w''))
        × IsEven pf w.calls w''.calls
  stop-start-IsEven s s' w w' h e =
      let (some_base, some_http, stopped) = stop-start_success pf s s' w w' h e in
      let b = pf.pointer (opening w.calls) base_new in
      let http_made = pf.pointer (base_new ∷ opening w.calls) (http_new b) in
      let g = pf.pointer (ignore_sigpipe ∷ w.calls) config_new in
      let (same_base, same_http, same_calls) =
        subst
          (SucceedsWith b http_made (
            listening g (record s { e_base = b; e_http_server = http_made })
              (http_new b ∷ base_new ∷ opening w.calls)))
          e (start-succeeds s w) refl in
      let all_calls : cycle s w.calls
          ≡ base_free s'.e_base ∷ http_free s'.e_http_server ∷ loop_exit s'.e_base ∷ w'.calls =
        cc (same_base, same_http, same_calls) in
      (_, stopped, subst (IsEven pf w.calls) all_calls (cycle-IsEven s w.calls))
