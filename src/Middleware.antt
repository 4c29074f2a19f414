-- ===== src/Middleware.antt =====
-- `Middleware` of include/easy_http/middleware.h and src/middleware.cpp: the chain that a route or a
-- controller owns, linked by `next_`.
pub mod Order
use easy_http.Prelude.{ℕ, Option, none, some, ◌==◌, if◌then◌else◌}
use easy_http.World.{M}
use easy_http.Request.{Request}
use easy_http.Response.{Response}

-- Response::RequestHandler
abbrev pub Handler : Type 0
Handler = Request → M Response

-- An object of a class derived from Middleware: its dynamic type, and its `Handle`.
pub record Layer : Type 0 where
  pub kind : ℕ
  pub handle : Request → Handler → M Response

-- What `last_` is bound to: a handler, or `Controller::Handle` of the controller that owns the
-- chain, which reads the controller when it is called.
pub data Last : Type 0 where
  to_handler : Handler → Last
  to_controller : Last

-- A `std::unique_ptr<Middleware>` with what it owns.
pub data Chain : Type 0 where
  empty : Chain
  node : Layer → Last → Chain → Chain

-- The handler that `last_` calls; `self` is `Controller::Handle` of the owner as it is now.
abbrev pub resolve : Handler → Last → Handler
resolve self (to_handler h) = h
resolve self to_controller = self

-- Middleware::CallHandler of an object with the given `last_` and `next_`.
unfoldable pub call_handler : Handler → Layer → Last → Chain → Handler
call_handler self m last empty request = m.handle request (resolve self last)
call_handler self m last (node m' last' next) request =
    m.handle request (call_handler self m' last' next)

-- The body that the two AddMiddleware functions share: `last` is put behind the last of the chain.
unfoldable pub append : Layer → Last → Chain → Chain
append m last empty = node m last empty
append m last (node m' last' next) = node m' last' (append m last next)

-- GetMiddlewareByType: the first object of the type; `none` is nullptr.
unfoldable pub find_kind : ℕ → Chain → Option Layer
find_kind kind empty = none
find_kind kind (node m last next) = if m.kind == kind then some m else find_kind kind next
