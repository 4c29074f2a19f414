-- ===== src/Tests/Clients.antt =====
-- Examples of the client.
use easy_http.Prelude.{◌+◌, some, false, ◌≡◌, refl}
use easy_http.Prelude.Int.{pos, negsuc, ◌+ℤ◌}
use easy_http.Bytes.{text}
use easy_http.Outcome.{ok, throw, invalid_argument}
use easy_http.World.{World}
use easy_http.World.External.{Platform}
use easy_http.RequestBase.{request, get}
use easy_http.Server.{new_server}
use easy_http.Client.{of_uri_scheme, of_uri_host, init, Client, create_request, of_ip_port, of_host}
use easy_http.Client.Uris.{uri_frees}
use easy_http.Client.{set_uri, with_url, connect, destroy}
use easy_http.Client.Life.{Requests, here, by_port, destroy-IsEven}
use easy_http.Client.Life
use easy_http.World.Objects.{AreSafe, IsEven}
use easy_http.Request.{Request, of_connection, send_request}
use easy_http.RequestBase.{of_url}
use easy_http.RequestBase.Send.{send as send_now, send_async}
use easy_http.RequestBase.Fields.{full_url}
use easy_http.RequestBase.Headers.{push_header}
use easy_http.Queries.{queries, parse_query}
use easy_http.World.Count.{total}
use easy_http.Client.Release.{hands, frees_connection, send_request-releases}
use easy_http.Client.Lifetime.{http_port-IsRest, IsRest, IsPortOf, read_port, uri_leaks}
use easy_http.Tests.{last_query, sample_platform, sample_world, sample_base}

abbrev local_client : Client
local_client = record {
  http_port = 80;
  http_scheme = text "http";
  http_host = text "localhost";
  e_base = 1;
  e_dns = 1;
  e_conn = 0;
}

-- A platform that joins URIs.
abbrev joining_platform : Platform
joining_platform = record sample_platform { uri_join = λ calls uri size. some (text "http://a/a") }

-- The request that the client makes, and the worlds before and after its Send.
abbrev asked : Request
asked = record {
  base = record sample_base { request_type = request; response_handler = 7 };
  e_con = 1;
  method = get;
}

abbrev asked_world : World
asked_world = (create_request joining_platform get (text "/a") 7 false local_client sample_world).1

abbrev sent_world : World
sent_world = (send_request joining_platform asked asked_world).1

create_request-asked :
    create_request joining_platform get (text "/a") 7 false local_client sample_world
    ≡ (ok asked, asked_world)
unfolding create_request set_uri with_url connect of_connection of_url queries parse_query
    last_query push_header ◌+ℤ◌
create_request-asked = refl

send_request-asked : send_request joining_platform asked asked_world ≡ (ok tt, sent_world)
unfolding send_request send_now send_async full_url
send_request-asked = refl

send_request-releases_example :
    (total (hands 1) sent_world.calls ≡ total (hands 1) sample_world.calls + 1)
    × (total (frees_connection 1) sent_world.calls
        ≡ total (frees_connection 1) sample_world.calls + 1)
send_request-releases_example =
    send_request-releases joining_platform get (text "/a") 7 false local_client asked sample_world
      asked_world sent_world create_request-asked send_request-asked

-- The URI of a host without a scheme is refused.
abbrev port_client : Client
port_client = record {
  http_port = 8080;
  http_scheme = text "http";
  http_host = text "0.0.0.0";
  e_base = 1;
  e_dns = 1;
  e_conn = 0;
}

abbrev port_world : World
port_world = (of_ip_port joining_platform (text "0.0.0.0") (pos 8080) sample_world).1

abbrev host_world : World
host_world = (of_host joining_platform (text "a") sample_world).1

of_ip_port-port_client :
    of_ip_port joining_platform (text "0.0.0.0") (pos 8080) sample_world
    ≡ (ok port_client, port_world)
unfolding of_ip_port set_uri init ◌+ℤ◌
of_ip_port-port_client = refl

of_host-refused :
    of_host joining_platform (text "a") sample_world
    ≡ (throw (invalid_argument (text "URL scheme was not set!")), host_world)
unfolding of_host of_uri_scheme
of_host-refused = refl

-- A platform that reads `http://a` without a port.
abbrev reading_platform : Platform
reading_platform = record joining_platform {
  uri_scheme = λ calls uri. some (text "http");
  uri_host = λ calls uri. some (text "a");
  uri_port = λ calls uri. negsuc 0;
}

abbrev host_client : Client
host_client = record {
  http_port = 80;
  http_scheme = text "http";
  http_host = text "a";
  e_base = 1;
  e_dns = 1;
  e_conn = 0;
}

abbrev wrapped_client : Client
wrapped_client = record port_client { http_port = 4464 }

abbrev wrapped_world : World
wrapped_world = (of_ip_port reading_platform (text "0.0.0.0") (pos 70000) sample_world).1

abbrev read_world : World
read_world = (of_host reading_platform (text "http://a") sample_world).1

of_ip_port-wrapped :
    of_ip_port reading_platform (text "0.0.0.0") (pos 70000) sample_world
    ≡ (ok wrapped_client, wrapped_world)
unfolding of_ip_port set_uri init ◌+ℤ◌
of_ip_port-wrapped = refl

of_host-read :
    of_host reading_platform (text "http://a") sample_world ≡ (ok host_client, read_world)
unfolding of_host of_uri_scheme of_uri_host init
of_host-read = refl

http_port-IsRest_example :
    IsRest (pos 70000) (new_server (text "0.0.0.0") (pos 70000)).http_port
    × IsRest (pos 70000) wrapped_client.http_port
    × IsPortOf (read_port reading_platform (text "http://a") sample_world) host_client.http_port
http_port-IsRest_example =
    http_port-IsRest reading_platform (text "0.0.0.0") (text "http://a") (pos 70000) wrapped_client
      host_client sample_world wrapped_world read_world of_ip_port-wrapped of_host-read

uri_leaks_example :
    (uri_frees port_world.calls ≡ uri_frees sample_world.calls)
    × (uri_frees host_world.calls ≡ uri_frees sample_world.calls)
uri_leaks_example =
    uri_leaks joining_platform (text "0.0.0.0") (text "a") (text "URL scheme was not set!")
      (pos 8080) port_client sample_world port_world host_world of_ip_port-port_client
      of_host-refused

-- The client makes a request.
abbrev requested_world : World
requested_world = (create_request joining_platform get (text "/a") 0 false port_client port_world).1

one_request : Requests joining_platform port_client port_world requested_world
one_request = Life.request get (text "/a") 0 false _ here refl

destroy-IsEven_example :
    ((destroy port_client requested_world).0 ≡ ok tt)
    × AreSafe joining_platform (destroy port_client requested_world).1.calls
    × IsEven joining_platform sample_world.calls (destroy port_client requested_world).1.calls
unfolding AreSafe
destroy-IsEven_example =
    destroy-IsEven joining_platform (λ calls. refl) (λ calls b. refl) port_client sample_world
      port_world requested_world tt (by_port (text "0.0.0.0") (pos 8080) of_ip_port-port_client)
      one_request
