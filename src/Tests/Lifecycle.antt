-- ===== src/Tests/Lifecycle.antt =====
-- Examples of the client and of starting and stopping the server.
use easy_http.Prelude.{some, ℕ, [], false, ◌≡◌, refl}
use easy_http.Prelude.Int.{pos, negsuc}
use easy_http.Bytes.{text}
use easy_http.Outcome.{ok}
use easy_http.World.{World}
use easy_http.World.Calls.{Call, bind_socket}
use easy_http.World.External.{Platform}
use easy_http.Client.{Client}
use easy_http.Server.{Server}
use easy_http.Server.Lifecycle.{start, start_threads, start_base, start_http, start_socket, stop}
use easy_http.Server.Lifecycle.Release.{stop-start}
use easy_http.Tests.{sample_platform, sample_world}

abbrev sample_client : Client
sample_client = record {
  http_port = 80;
  http_scheme = text "http";
  http_host = text "localhost";
  e_base = 1;
  e_dns = 1;
  e_conn = 0;
}

-- A platform that joins URIs.
abbrev joining : Platform
joining = record sample_platform { uri_join = λ calls uri size. some (text "http://localhost/a") }

-- The address of the server is in use.
abbrev no_socket : Call → ℕ
no_socket (bind_socket http ip port) = 0
no_socket _ = 1

abbrev busy_platform : Platform
busy_platform = record sample_platform { pointer = λ calls c. no_socket c }

abbrev fresh_server : Server
fresh_server = record {
  is_started = false;
  http_ip = text "0.0.0.0";
  http_port = 80;
  e_base = 0;
  e_http_server = 0;
  routes = [];
  controllers = [];
}

abbrev failed_server : Server
failed_server = record fresh_server { e_base = 1; e_http_server = 1 }

abbrev failed_world : World
failed_world = (start busy_platform fresh_server sample_world).1

start-failed_server :
    start busy_platform fresh_server sample_world ≡ (ok (negsuc 0, failed_server), failed_world)
unfolding start start_threads start_base start_http start_socket
start-failed_server = refl

stop-start_example : stop failed_server failed_world ≡ (ok (pos 0, failed_server), failed_world)
stop-start_example =
    stop-start busy_platform fresh_server failed_server (negsuc 0) sample_world failed_world refl
      start-failed_server refl
