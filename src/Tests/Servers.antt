-- ===== src/Tests/Servers.antt =====
-- Examples of a server that is started, stopped and destroyed.
use easy_http.Prelude.{some, true, false, ◌≡◌, refl}
use easy_http.Prelude.Int.{pos}
use easy_http.Bytes.{text}
use easy_http.Outcome.{ok}
use easy_http.World.{World}
use easy_http.World.External.{Platform}
use easy_http.World.Objects.{AreSafe, IsEven}
use easy_http.Server.{Server, new_server}
use easy_http.Server.Lifecycle.{
  display_listen_sock, run_loop, start_signal, start, start_threads, start_base, start_http,
  start_socket, stop, destroy, construct,
}
use easy_http.Server.Lifecycle.Cycle.{stop-start-IsEven}
use easy_http.Server.Lifecycle.Life.{Life, here, next, starts, stops, destroys, Life-AreSafe}
use easy_http.Tests.{sample_platform, sample_world}

abbrev idle_server : Server
idle_server = new_server (text "0.0.0.0") (pos 8080)

abbrev served_server : Server
served_server = record (new_server (text "0.0.0.0") (pos 8080)) {
  is_started = true;
  e_base = 1;
  e_http_server = 1;
}

abbrev served_platform : Platform
served_platform = record sample_platform { inet_ntop = λ calls socket. some (text "0.0.0.0") }

abbrev served_world : World
served_world = (start served_platform idle_server sample_world).1

start-served_server :
    start served_platform idle_server sample_world ≡ (ok (pos 0, served_server), served_world)
unfolding start start_threads start_base start_http start_socket start_signal run_loop
    display_listen_sock new_server
start-served_server = refl

stop-start-IsEven_example :
    (w : World) × (stop served_server served_world
      ≡ (ok (pos 0, record served_server { is_started = false }), w))
    × IsEven served_platform sample_world.calls w.calls
unfolding new_server
stop-start-IsEven_example =
    stop-start-IsEven served_platform idle_server served_server sample_world served_world refl
      start-served_server

-- The server is started, stopped, started again while it is stopped, and destroyed.
abbrev stopped : Server × World
stopped = (record served_server { is_started = false }, (stop served_server served_world).1)

abbrev again : Server × World
again = (served_server, (start served_platform stopped.0 stopped.1).1)

abbrev destroyed : Server × World
destroyed = (stopped.0, (destroy again.0 again.1).1)

destroyed-Life : Life served_platform (idle_server, sample_world) destroyed
unfolding start start_threads start_base start_http start_socket start_signal run_loop
    display_listen_sock new_server stop destroy
destroyed-Life =
    next (next (next (next here (starts (pos 0) refl)) (stops (pos 0) refl)) (starts (pos 0) refl))
      (destroys (pos 0) refl)

idle-construct :
    construct served_platform (text "0.0.0.0") (pos 8080) sample_world
    ≡ (ok idle_server, sample_world)
unfolding construct
idle-construct = refl

Life-AreSafe_example : AreSafe served_platform destroyed.1.calls
unfolding AreSafe
Life-AreSafe_example =
    Life-AreSafe served_platform (λ calls. refl) (text "0.0.0.0") (pos 8080) idle_server destroyed.0
      sample_world sample_world destroyed.1 tt idle-construct destroyed-Life
