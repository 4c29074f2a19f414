-- ===== src/Server/Loop.antt =====
-- The server while libevent's loop runs: requests arrive, and the timers of chunked replies fire, in
-- any order. A callback that ends by an exception or in undefined behaviour ends the program: it is no
-- step.
pub mod Balance
pub mod Invariant
pub mod Drain
use easy_http.Prelude.{ℕ, ◌≡◌, List, [], ◌∷◌, ◌++◌, Option, none, some}
use easy_http.Outcome.{ok}
use easy_http.World.{World}
use easy_http.World.External.{Platform}
use easy_http.RequestBase.Reply.{ChunkState, trickle}
use easy_http.RequestBase.Send.{on_reply_complete}
use easy_http.Server.{Server, on_request}

-- The states of the chunked replies whose timers are armed, and the world.
pub record Loop : Type 0 where
  pub armed : List ChunkState
  pub world : World

-- A chunked reply that goes on is armed.
abbrev pub rearm : Option ChunkState → List ChunkState → List ChunkState
rearm none states = states
rearm (some state) states = state ∷ states

module _ (pf : Platform) (s : Server) where
  pub data Step (a b : Loop) : Type 0 where
    -- libevent calls RequestHandler with a request
    arrive :
        (e_request : ℕ) (started : Option ChunkState)
        → on_request pf s e_request a.world ≡ (ok started, b.world)
        → b.armed ≡ rearm started a.armed
        → Step a b
    -- one of the armed timers fires
    fire :
        (front back : List ChunkState) (state : ChunkState) (left : Option ChunkState)
        → a.armed ≡ front ++ state ∷ back
        → trickle pf state a.world ≡ (ok left, b.world)
        → b.armed ≡ front ++ rearm left back
        → Step a b
    -- libevent calls OnReplyComplete
    complete :
        (container : ℕ)
        → on_reply_complete container a.world ≡ (ok tt, b.world)
        → b.armed ≡ a.armed
        → Step a b

  pub data Reach (a : Loop) : Loop → Type 0 where
    here : Reach a a
    next : {b c : Loop} → Reach a b → Step b c → Reach a c
