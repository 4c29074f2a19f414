-- ===== src/Server/Lifecycle.antt =====
-- Start and Stop of src/server.cpp, as built for a system other than Windows, with threads and
-- without spdlog.
pub mod Release
pub mod Safety
pub mod Life
pub mod Cycle
use easy_http.Prelude.{ℕ, [], ◌∷◌, Option, none, some, true, false, ◌==◌, if◌then◌else◌}
use easy_http.Prelude.Int.{ℤ, pos, negsuc, eq_ℤ}
use easy_http.Bytes.{Bytes, text, c_str}
use easy_http.World.{M, ◌>>=◌, ◌>>◌, pure, ask, emit, call_int, call_ptr}
use easy_http.World.Calls.{
  req_get, req_post, req_options, req_put, req_delete, req_patch, ignore_sigpipe, config_new,
  config_free, use_pthreads, base_new, base_free, http_new, http_free, set_allowed_methods,
  set_gencb, set_max_body_size, bind_socket, getsockname, evsignal_new, event_add, event_free,
  dispatch, loop_exit, loop_break, enable_debug_logging,
}
use easy_http.World.External.{Platform, SocketFamily, inet, inet6, local, other_family}
use easy_http.Server.{Server, new_server}

module _ (pf : Platform) where
  -- The end of display_listen_sock, for an address of the internet families.
  abbrev pub shown : Option Bytes → ℤ
  shown none = pos 1
  shown (some addr) = pos 0

  abbrev pub shown_family : SocketFamily → ℤ → ℤ
  shown_family inet r = r
  shown_family inet6 r = r
  shown_family local r = pos 0
  shown_family (other_family n) r = pos 1

  -- display_listen_sock: 0 if the address can be shown.
  unfoldable pub display_listen_sock : ℕ → M ℤ
  display_listen_sock handle = do
    r ← call_int pf (getsockname handle)
    if eq_ℤ r (pos 0)
        then ask (λ h. shown_family (pf.socket_family h handle) (shown (pf.inet_ntop h handle)))
        else pure (pos 1)

  -- The stages of Start, the last first. Each is given the server as it is then.
  unfoldable pub run_loop : ℕ → ℕ → Server → M (ℤ × Server)
  run_loop e_cfg e_term self = do
    emit (dispatch self.e_base)
    emit (config_free e_cfg)
    emit (event_free e_term)
    pure (pos 0, record self { is_started = true })

  unfoldable pub start_signal : ℕ → Server → M (ℤ × Server)
  start_signal e_cfg self = do
    e_term ← call_ptr pf (evsignal_new self.e_base)
    if e_term == 0
        then pure (negsuc 0, self)
        else (call_int pf (event_add e_term) >>= λ r.
            if eq_ℤ r (pos 0) then run_loop e_cfg e_term self else pure (negsuc 0, self))

  unfoldable pub start_socket : ℕ → Server → M (ℤ × Server)
  start_socket e_cfg self = do
    emit (
        set_allowed_methods self.e_http_server
          (req_get ∷ req_post ∷ req_options ∷ req_put ∷ req_delete ∷ req_patch ∷ []))
    emit (set_gencb self.e_http_server)
    emit (set_max_body_size self.e_http_server 6410241024)
    handle ← call_ptr pf (bind_socket self.e_http_server (c_str self.http_ip) self.http_port)
    if handle == 0
        then pure (negsuc 0, self)
        else (display_listen_sock handle >>= λ r.
            if eq_ℤ r (pos 0) then start_signal e_cfg self else pure (negsuc 0, self))

  unfoldable pub start_http : ℕ → Server → M (ℤ × Server)
  start_http e_cfg self = do
    http ← call_ptr pf (http_new self.e_base)
    if http == 0
        then pure (negsuc 0, record self { e_http_server = http })
        else start_socket e_cfg (record self { e_http_server = http })

  unfoldable pub start_base : ℕ → Server → M (ℤ × Server)
  start_base e_cfg self = do
    base ← call_ptr pf base_new
    if base == 0
        then pure (negsuc 0, record self { e_base = base })
        else start_http e_cfg (record self { e_base = base })

  unfoldable pub start_threads : Server → M (ℤ × Server)
  start_threads self = do
    e_cfg ← call_ptr pf config_new
    r ← call_int pf use_pthreads
    if eq_ℤ r (pos 0) then start_base e_cfg self else pure (pos 1, self)

  -- Start(): what it returns, and the server after it. SIG_ERR is -1.
  unfoldable pub start : Server → M (ℤ × Server)
  start self = do
    r ← call_int pf ignore_sigpipe
    if eq_ℤ r (negsuc 0) then pure (negsuc 0, self) else start_threads self

-- `if (p) f(p);`
abbrev if_set : ℕ → M (Unit {0}) → M (Unit {0})
if_set p m = if p == 0 then pure tt else m

-- Stop()
unfoldable pub stop : Server → M (ℤ × Server)
stop self =
    if self.is_started
    then (do
      if_set self.e_base (emit (loop_exit self.e_base))
      if_set self.e_http_server (emit (http_free self.e_http_server))
      if_set self.e_base (emit (base_free self.e_base))
      pure (pos 0, record self { is_started = false }))
    else pure (pos 0, self)

-- ~Server()
unfoldable pub destroy : Server → M (ℤ × Server)
unfolding stop
destroy self = stop self

-- do_term, for the signal SIGINT
unfoldable pub do_term : ℕ → M (Unit {0})
do_term base = emit (loop_break base)

-- Server(ip, port), with the switch for libevent's debug output.
unfoldable pub construct : Platform → Bytes → ℤ → M Server
unfolding new_server
construct pf ip port =
    (if pf.is_in_environment (text "EVENT_DEBUG_LOGGING_ALL")
      then emit enable_debug_logging
      else pure tt)
    >> pure (new_server ip port)
