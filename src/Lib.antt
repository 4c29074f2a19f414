-- ===== src/Lib.antt =====
-- easy_http: a verification library for the HTTP server and client library of this repository, a
-- set of C++ classes over libevent.
--
-- The program. A `Server` (src/server.cpp) receives libevent's requests in one static callback. It
-- makes a `Request` (src/request.cpp, over `RequestBase` of src/request_base.cpp), which reads the
-- URL, the query string and the headers; looks for a `Route` (src/route.cpp) and then for a
-- `Controller` (src/controller.cpp) whose pattern and method fit; calls its handler through a chain
-- of `Middleware` (src/middleware.cpp); and sends the `Response` (src/response.cpp), at once or in
-- chunks by a timer. A `Client` (src/client.cpp) makes a `Request` for a path of its host, whose
-- parameters, headers and content are then pushed, and which is sent. `EvRequest`
-- (src/ev_request.cpp) is an older form of RequestBase, which the other classes do not use: its
-- callbacks hold the address of the object itself.
--
-- The files.
--   Prelude        shared names, Boolean tests, lists and integers over the native numbers
--   Bytes          std::string as bytes, and its order; C strings
--   ParamList      std::map<std::string, std::string> as a list with rising keys
--   Outcome, World how a method ends (a result, an exception, undefined behaviour); the calls made
--                  of libevent and of the system, in their order, how they are counted
--                  (World/Count), what they make and free (World/Objects), what holds of results
--                  (World/Yields) and of the calls after a method (World/Keeps); the callback
--                  containers
--   Queries        RequestBase::Queries and the loop of Request::PushParam; the pairs of a query by
--                  splitting (Queries/Reference), and what a query means (Queries/Meaning)
--   Values         RequestBase::ToLower, IsFilled and GetVal
--   Utils          open_file and str2time of src/utils.cpp
--   RequestBase    state, constructors and copies of RequestBase; in its children the getters
--                  (Fields), headers (Headers), content (Content), URL patterns (Url), replies
--                  (Reply), sending with its callbacks (Send), and the setters of the template
--                  RequestBaseAbstract (Derived)
--   Request, Response, Middleware, Route, Controller, Server   the classes of these names
--   Client         Client of src/client.cpp, and its life from a constructor to the destructor
--                  (Client/Life)
--   Server/Lifecycle   Server::Start and Server::Stop, the constructor and the destructor, each called
--                  when the one before has returned
--   Server/Loop    the server in libevent's loop: requests, timers and completions in any order
--   EvRequest      state, constructors, moves and the destructor of EvRequest; in its children the
--                  getters (Fields), headers and content (Content), replies (Reply) and sending with
--                  its callbacks (Send); what it shares with RequestBase (Agreement)
--   Examples       the programs of examples/: server_hello_world (HelloWorld), server_controller
--                  (Users), server_middleware (Authentication), client_hello_world (Download)
--   Exchange       a request from the client to the server: PushParam and SendAsync on one side, the
--                  constructors on the other, up to its handler (Exchange/Routing); and the headers of a
--                  message (Exchange/Headers)
--   Tests          examples of the theorems
-- A function is named as in the source, in snake_case, its object among its arguments. A method
-- that makes calls or can fail is a function of the world, `M A`; the stages of a method and the
-- body of a loop are functions of their own where the method is long.
--
-- What is outside. What libevent, the operating system, std::regex_match and std::stod answer is
-- the record `Platform` (World/External), an argument of every definition that uses it: functions of
-- the calls made before. What the theorems need of them is stated where it is used: `IsCodec` (URI
-- encoding), `KeepsQuery` (the query of a URI that was set), `CarriesQuery` (the query of a URI that
-- was written and read), `Delivers` (libevent hands over what was sent), that a pattern is a regular
-- expression, that libevent takes a header and a content, and that it gives a configuration, an event
-- base and a DNS base and not NULL. Platform also has the order in which the compiler evaluates the
-- conversions of UrlVars (`head_first`), and whether the program that uses the library keeps a copy of
-- a request longer than its handling (`is_kept`). A `double` is its 64 bits, which nothing reads; the
-- calendar of str2time is the record `Calendar` (Utils).
-- A middleware and a handler are any functions from a request, and the rest of the chain, to a
-- response in the world. A pointer is a number, NULL is 0; memory is not modelled, so that a copy
-- of a request and the request share what their pointers lead to. Of the destructors of requests and
-- responses the call that they make is modelled, that of evhttp_uri_free, where the library's own
-- objects end: after the handling of a request, after the call of a response handler, and when
-- CreateRequest throws.
--
-- Bounds. Numbers are natural numbers, an `int` is an integer whose range is tested where the
-- source's conversions test it (`fits`). The search for the matches of a query runs on fuel, one
-- more than the length of the query: every step consumes a byte. The timer of a chunked reply is
-- fired a given number of times; the callback of a chunk of EvRequest and the loop of the server
-- are step relations, without a bound.
--
-- Not modelled: request_complete_ of RequestBase, which nothing reads; a Stop while another thread, or
-- the loop that calls a handler, is still in Start; logging and what is printed,
-- but for the report of an exception in a handler; and the parts for Windows.
pub mod Prelude
pub mod Bytes
pub mod ParamList
pub mod Outcome
pub mod World
pub mod Values
pub mod Queries
pub mod Utils
pub mod RequestBase
pub mod Response
pub mod Request
pub mod Middleware
pub mod Route
pub mod Controller
pub mod Server
pub mod Client
pub mod EvRequest
pub mod Examples
pub mod Exchange
pub mod Tests
