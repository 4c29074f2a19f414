-- ===== src/Server/Loop/Invariant.antt =====
-- The invariant of the loop: every chunked reply that was begun is either armed or ended, once.
use mathlib.Core.Path.{subst}
use easy_http.Prelude.{
  ℕ, ◌+◌, ◌≡◌, refl, ap, arith, List, ◌∷◌, Option, none, some, length, length-append,
}
use easy_http.World.Calls.{
  Call, send_reply_start, send_reply_end, timer_new, event_free, free_state,
}
use easy_http.World.Count.{total}
use easy_http.World.External.{Platform}
use easy_http.RequestBase.Reply.{ChunkState}
use easy_http.RequestBase.Send.{on_reply_complete}
use easy_http.Server.{Server}
use easy_http.Server.Quiet.{IsReplyCount, IsQuietServer}
use easy_http.Server.Loop.{Loop, rearm, Step, arrive, fire, complete, Reach, here, next}
use easy_http.Server.Loop.Balance.{HasWeights, size, Begins, Ends, on_request-Begins, trickle-Ends}

abbrev starts : Call → ℕ
starts (send_reply_start request code reason) = 1
starts _ = 0

abbrev ends : Call → ℕ
ends (send_reply_end request) = 1
ends _ = 0

abbrev timers_made : Call → ℕ
timers_made (timer_new base request) = 1
timers_made _ = 0

abbrev timers_freed : Call → ℕ
timers_freed (event_free timer) = 1
timers_freed _ = 0

abbrev states_freed : Call → ℕ
states_freed (free_state request) = 1
states_freed _ = 0

starts-IsReplyCount : IsReplyCount starts
starts-IsReplyCount (send_reply_start request code reason) h = cc
starts-IsReplyCount _ h = refl

starts-HasWeights : HasWeights starts 1 0
starts-HasWeights = record {
  others = starts-IsReplyCount;
  plain = λ request code reason with_output. refl;
  begins = λ base request code reason. refl;
  chunk = λ request chunk. refl;
  arms = λ timer usec. refl;
  finishes = λ request timer. refl;
}

ends-IsReplyCount : IsReplyCount ends
ends-IsReplyCount (send_reply_end request) h = cc
ends-IsReplyCount _ h = refl

ends-HasWeights : HasWeights ends 0 1
ends-HasWeights = record {
  others = ends-IsReplyCount;
  plain = λ request code reason with_output. refl;
  begins = λ base request code reason. refl;
  chunk = λ request chunk. refl;
  arms = λ timer usec. refl;
  finishes = λ request timer. refl;
}

timers_made-IsReplyCount : IsReplyCount timers_made
timers_made-IsReplyCount (timer_new base request) h = cc
timers_made-IsReplyCount _ h = refl

timers_made-HasWeights : HasWeights timers_made 1 0
timers_made-HasWeights = record {
  others = timers_made-IsReplyCount;
  plain = λ request code reason with_output. refl;
  begins = λ base request code reason. refl;
  chunk = λ request chunk. refl;
  arms = λ timer usec. refl;
  finishes = λ request timer. refl;
}

timers_freed-IsReplyCount : IsReplyCount timers_freed
timers_freed-IsReplyCount (event_free timer) h = cc
timers_freed-IsReplyCount _ h = refl

timers_freed-HasWeights : HasWeights timers_freed 0 1
timers_freed-HasWeights = record {
  others = timers_freed-IsReplyCount;
  plain = λ request code reason with_output. refl;
  begins = λ base request code reason. refl;
  chunk = λ request chunk. refl;
  arms = λ timer usec. refl;
  finishes = λ request timer. refl;
}

states_freed-IsReplyCount : IsReplyCount states_freed
states_freed-IsReplyCount (free_state request) h = cc
states_freed-IsReplyCount _ h = refl

states_freed-HasWeights : HasWeights states_freed 0 1
states_freed-HasWeights = record {
  others = states_freed-IsReplyCount;
  plain = λ request code reason with_output. refl;
  begins = λ base request code reason. refl;
  chunk = λ request chunk. refl;
  arms = λ timer usec. refl;
  finishes = λ request timer. refl;
}

length-rearm :
    (left : Option ChunkState) (states : List ChunkState)
    → length (rearm left states) ≡ size left + length states
length-rearm none states = omega arith
length-rearm (some state) states = omega arith

module _ (pf : Platform) (s : Server) where
  module _ (up down : Call → ℕ) (made : HasWeights up 1 0) (freed : HasWeights down 0 1)
      (quiet_up : IsQuietServer up s) (quiet_down : IsQuietServer down s) where
    -- What was counted up was counted down, or is armed.
    abbrev HasPairs : Loop → Type 0
    HasPairs a = total up a.world.calls ≡ total down a.world.calls + length a.armed

    Step-HasPairs : (a b : Loop) → Step pf s a b → HasPairs a → HasPairs b
    unfolding on_reply_complete
    Step-HasPairs a b (arrive e_request started q r) h =
        let k =
          subst (Begins pf up 1 0 made a.world) q
            (on_request-Begins pf up 1 0 made s quiet_up e_request a.world) in
        let l =
          subst (Begins pf down 0 1 freed a.world) q
            (on_request-Begins pf down 0 1 freed s quiet_down e_request a.world) in
        omega (arith, k, l, h, ap length r, length-rearm started a.armed)
    Step-HasPairs a b (fire front back state left p q r) h =
        let k = subst (Ends pf up 1 0 made a.world) q (trickle-Ends pf up 1 0 made state a.world) in
        let l =
          subst (Ends pf down 0 1 freed a.world) q (trickle-Ends pf down 0 1 freed state a.world) in
        omega (
          arith,
          k,
          l,
          h,
          ap length p,
          ap length r,
          length-append front (state ∷ back),
          length-append front (rearm left back),
          length-rearm left back,
        )
    Step-HasPairs a b (complete container q r) h =
        omega
          (arith, ap (λ p. total up p.1.calls) q, ap (λ p. total down p.1.calls) q, h, ap length r)

    Reach-HasPairs : {a b : Loop} → Reach pf s a b → HasPairs a → HasPairs b
    Reach-HasPairs here h = h
    Reach-HasPairs (next r step) h = Step-HasPairs _ _ step (Reach-HasPairs r h)

-- Every chunked reply that was begun was ended or is armed; so are the timers that were made and
-- freed, and the states that were made with the replies and freed.
abbrev pub IsBalanced : Loop → Type 0
IsBalanced a =
    (total starts a.world.calls ≡ total ends a.world.calls + length a.armed)
    × (total timers_made a.world.calls ≡ total timers_freed a.world.calls + length a.armed)
    × (total starts a.world.calls ≡ total states_freed a.world.calls + length a.armed)

-- If the server's handlers and middleware make no calls of replies themselves, the loop stays
-- balanced whatever comes, in any order: requests, firings of the armed timers and completions.
pub Reach-IsBalanced :
    (pf : Platform) (s : Server)
    → ((count : Call → ℕ) → IsReplyCount count → IsQuietServer count s)
    → (a b : Loop) → IsBalanced a
    → Reach pf s a b
    → IsBalanced b
Reach-IsBalanced pf s quiet a b h r = (
  Reach-HasPairs pf s starts ends starts-HasWeights ends-HasWeights
      (quiet starts starts-IsReplyCount) (quiet ends ends-IsReplyCount) r h.0,
  Reach-HasPairs pf s timers_made timers_freed timers_made-HasWeights timers_freed-HasWeights
      (quiet timers_made timers_made-IsReplyCount) (quiet timers_freed timers_freed-IsReplyCount) r
      h.1,
  Reach-HasPairs pf s starts states_freed starts-HasWeights states_freed-HasWeights
      (quiet starts starts-IsReplyCount) (quiet states_freed states_freed-IsReplyCount) r h.2,
)
