-- ===== src/Server/Lifecycle/Release.antt =====
-- What Start leaves to Stop.
use mathlib.Core.Path.{subst}
use easy_http.Prelude.{
  Bool-cases, inl, inr, arith, ℕ, ◌==◌, ◌≡◌, refl, ◌∙◌, sym, List, [], ◌∷◌, true, false,
}
use easy_http.Prelude.Int.{ℤ, pos, negsuc, eq_ℤ}
use easy_http.Outcome.{ok}
use easy_http.World.{World, M, pure, emit, call_int, call_ptr}
use easy_http.World.Calls.{
  CmdType, req_get, req_post, req_options, req_put, req_delete, req_patch, ignore_sigpipe,
  config_new, use_pthreads, base_new, http_new, set_allowed_methods, set_gencb, set_max_body_size,
  bind_socket, evsignal_new, event_add, base_free, http_free, loop_exit,
}
use easy_http.Bytes.{c_str}
use easy_http.World.Yields.{OfResult, Yields, bind-Yields, if-Yields}
use easy_http.World.External.{Platform}
use easy_http.Server.{Server}
use easy_http.Server.Lifecycle.{
  display_listen_sock, run_loop, start_signal, start_socket, start_http, start_base, start_threads,
  start, stop,
}

-- A server that is started has what Start allocates.
abbrev HasParts : Server → Type 0
HasParts s = ((s.e_base == 0) ≡ false) × ((s.e_http_server == 0) ≡ false)

-- The server is marked as started just when the method returned 0, and has its parts then.
abbrev IsStarted : ℤ × Server → Type 0
IsStarted (r, s) = (s.is_started ≡ eq_ℤ r (pos 0)) × (s.is_started ≡ true → HasParts s)

abbrev IsFlagged : M (ℤ × Server) → Type 0
IsFlagged m = Yields IsStarted m

-- A failure of a server that was not started.
pure-IsFlagged :
    (r : ℤ) (s : Server) → s.is_started ≡ false → eq_ℤ r (pos 0) ≡ false → IsFlagged (pure (r, s))
pure-IsFlagged r s h k = record { at = λ w. (h ∙ sym k, λ e. cc) }

module _ (pf : Platform) where
  run_loop-IsFlagged :
      (e_cfg e_term : ℕ) (s : Server) → HasParts s → IsFlagged (run_loop pf e_cfg e_term s)
  unfolding run_loop
  run_loop-IsFlagged e_cfg e_term s parts = record { at = λ w. (refl, λ e. parts) }

  start_signal-IsFlagged :
      (e_cfg : ℕ) (s : Server)
      → s.is_started ≡ false
      → HasParts s
      → IsFlagged (start_signal pf e_cfg s)
  unfolding start_signal
  start_signal-IsFlagged e_cfg s h parts =
      bind-Yields IsStarted (call_ptr pf (evsignal_new s.e_base)) _ (λ e_term.
        if-Yields IsStarted (e_term == 0) _ _ (pure-IsFlagged (negsuc 0) s h refl) (λ _.
          bind-Yields IsStarted (call_int pf (event_add e_term)) _ (λ r.
            if-Yields IsStarted (eq_ℤ r (pos 0)) _ _ (run_loop-IsFlagged e_cfg e_term s parts)
              (λ _. pure-IsFlagged (negsuc 0) s h refl))))

  abbrev allowed : List CmdType
  allowed = req_get ∷ req_post ∷ req_options ∷ req_put ∷ req_delete ∷ req_patch ∷ []

  start_socket-IsFlagged :
      (e_cfg : ℕ) (s : Server)
      → s.is_started ≡ false
      → HasParts s
      → IsFlagged (start_socket pf e_cfg s)
  unfolding start_socket
  start_socket-IsFlagged e_cfg s h parts =
      bind-Yields IsStarted (emit (set_allowed_methods s.e_http_server allowed)) _ (λ _.
        bind-Yields IsStarted (emit (set_gencb s.e_http_server)) _ (λ _.
          bind-Yields IsStarted (emit (set_max_body_size s.e_http_server 6410241024)) _ (λ _.
            bind-Yields IsStarted
              (call_ptr pf (bind_socket s.e_http_server (c_str s.http_ip) s.http_port)) _
              (λ handle.
                if-Yields IsStarted (handle == 0) _ _ (pure-IsFlagged (negsuc 0) s h refl) (λ _.
                  bind-Yields IsStarted (display_listen_sock pf handle) _ (λ r.
                    if-Yields IsStarted (eq_ℤ r (pos 0)) _ _
                      (start_signal-IsFlagged e_cfg s h parts)
                      (λ _. pure-IsFlagged (negsuc 0) s h refl)))))))

  start_base-IsFlagged :
      (e_cfg : ℕ) (s : Server) → s.is_started ≡ false → IsFlagged (start_base pf e_cfg s)
  unfolding start_base start_http
  start_base-IsFlagged e_cfg s h = bind-Yields IsStarted (call_ptr pf base_new) _ (λ base.
      if-Yields IsStarted (base == 0) _ _
        (pure-IsFlagged (negsuc 0) (record s { e_base = base }) h refl)
        (λ some_base. bind-Yields IsStarted (call_ptr pf (http_new base)) _ (λ http.
          if-Yields IsStarted (http == 0) _ _
            (pure-IsFlagged (negsuc 0) (record s { e_base = base; e_http_server = http }) h refl)
            (λ some_http.
              start_socket-IsFlagged e_cfg (record s { e_base = base; e_http_server = http }) h
                (some_base, some_http)))))

  start-IsFlagged : (s : Server) → s.is_started ≡ false → IsFlagged (start pf s)
  unfolding start start_threads
  start-IsFlagged s h = bind-Yields IsStarted (call_int pf ignore_sigpipe) _ (λ r.
      if-Yields IsStarted (eq_ℤ r (negsuc 0)) _ _ (pure-IsFlagged (negsuc 0) s h refl) (λ _.
        bind-Yields IsStarted (call_ptr pf config_new) _ (λ e_cfg.
          bind-Yields IsStarted (call_int pf use_pthreads) _ (λ q.
            if-Yields IsStarted (eq_ℤ q (pos 0)) _ _ (start_base-IsFlagged e_cfg s h)
              (λ _. pure-IsFlagged (pos 1) s h refl)))))

  -- If Start of a server that was not started returns something else than 0, then Stop of the server
  -- that it leaves makes no call at all: what Start had allocated stays allocated.
  pub stop-start :
      (s s' : Server) (r : ℤ) (w w' : World)
      → s.is_started ≡ false
      → start pf s w ≡ (ok (r, s'), w')
      → eq_ℤ r (pos 0) ≡ false
      → stop s' w' ≡ (ok (pos 0, s'), w')
  unfolding stop
  stop-start s s' r w w' h e k =
      let flagged : IsStarted (r, s') = subst (OfResult IsStarted) e ((start-IsFlagged s h).at w) in
      rw (flagged.0 ∙ k)

  -- If Start of a server that was not started returns 0, then Stop of the server that it leaves ends
  -- the loop, and frees the HTTP server and then the event base that Start had made, neither of them
  -- NULL, and nothing else; and the server is not started any more.
  pub stop-start_success :
      (s s' : Server) (w w' : World)
      → s.is_started ≡ false
      → start pf s w ≡ (ok (pos 0, s'), w')
      → ((s'.e_base == 0) ≡ false)
        × ((s'.e_http_server == 0) ≡ false)
        × (stop s' w' ≡ (
          ok (pos 0, record s' { is_started = false }),
          record w' {
            calls =
                base_free s'.e_base ∷ http_free s'.e_http_server ∷ loop_exit s'.e_base ∷ w'.calls;
          },
        ))
  unfolding stop
  stop-start_success s s' w w' h e =
      let flagged : IsStarted (pos 0, s') =
        subst (OfResult IsStarted) e ((start-IsFlagged s h).at w) in
      let parts : HasParts s' = flagged.1 flagged.0 in
      (parts.0, parts.1, rw (flagged.0, parts.0, parts.1))

stop-clears : (s : Server) (w : World) → OfResult (λ a. a.1.is_started ≡ false) (stop s w)
unfolding stop
stop-clears s w = elim (Bool-cases s.is_started) [ inl h ↦ rw h (ground arith) | inr h ↦ rw h ]

-- A second Stop, also the one of the destructor, makes no call: what the first Stop freed is not
-- freed again.
stop-stop :
    (s s' : Server) (r : ℤ) (w w' : World)
    → stop s w ≡ (ok (r, s'), w')
    → stop s' w' ≡ (ok (pos 0, s'), w')
unfolding stop
stop-stop s s' r w w' e =
    let cleared : s'.is_started ≡ false =
      subst (OfResult (λ a. a.1.is_started ≡ false)) e (stop-clears s w) in
    rw cleared
