-- ===== src/RequestBase/Reply/Chunks.antt =====
-- The chunked reply while libevent fires its timer.
use easy_http.Prelude.{
  ℕ, zero, suc, ◌+◌, ◌≤◌, ◌<◌, ◌≡◌, refl, ap, arith, List, [], ◌∷◌, ◌++◌, Option, none, some, Bool,
  true, false, ◌⊎◌, ◌==◌, append_assoc, Bool-cases, inl, inr, not, ◌&&◌,
}
use easy_http.Outcome.{ok}
use easy_http.World.{World, M, ◌>>=◌, continue, pure}
use easy_http.World.Calls.{
  Call, send_reply_chunk, send_reply_end, timer_add, event_free, free_state,
}
use easy_http.World.External.{Platform}
use easy_http.RequestBase.{ChunkCallback}
use easy_http.RequestBase.Reply.{ChunkState, trickle}

module _ (pf : Platform) where
  abbrev again : (ChunkState → M (Option ChunkState)) → Option ChunkState → M (Option ChunkState)
  again run none = pure none
  again run (some state) = run state

  -- The timer fires a number of times, as long as it is armed.
  unfoldable pub fire : ℕ → ChunkState → M (Option ChunkState)
  fire zero state = pure (some state)
  fire (suc n) state = trickle pf state >>= again (fire n)

  module _ (req timer : ℕ) (f : ChunkCallback) where
    abbrev pub at_chunk : ℕ → ChunkState
    at_chunk i = record { req = req; timer = timer; get_chunk = some f; i = i }

    -- The calls that send the k chunks from the i-th on, latest first: each chunk, and the timer
    -- armed anew for 30 ms.
    unfoldable pub chunk_calls : ℕ → ℕ → List Call
    chunk_calls i zero = []
    chunk_calls i (suc k) =
        chunk_calls (suc i) k ++ timer_add timer 30000 ∷ send_reply_chunk req (f i).1 ∷ []

    -- The calls that end the reply, latest first.
    abbrev pub closing_calls : List Call
    closing_calls = free_state req ∷ event_free timer ∷ send_reply_end req ∷ []

    abbrev pub after_calls : List Call → World → World
    after_calls calls w = record w { calls = calls ++ w.calls }

    -- At a world the callback has a chunk and there is a connection.
    abbrev pub goes_on : ℕ → World → Bool
    goes_on i w = (f i).0 && not (pf.request_connection w.calls req == 0)

    pub trickle-on :
        (i : ℕ) (w : World)
        → goes_on i w ≡ true
        → trickle pf (at_chunk i) w ≡ (
          ok (some (at_chunk (suc i))),
          after_calls (timer_add timer 30000 ∷ send_reply_chunk req (f i).1 ∷ []) w,
        )
    unfolding trickle
    trickle-on i w h = rw h

    pub trickle-off :
        (i : ℕ) (w : World)
        → goes_on i w ≡ false
        → trickle pf (at_chunk i) w ≡ (ok none, after_calls closing_calls w)
    unfolding trickle
    trickle-off i w h = rw h

    -- A round's calls, and then the later ones.
    chunk_calls-suc :
        (i k : ℕ) (calls : List Call)
        → chunk_calls i (suc k) ++ calls
          ≡ chunk_calls (suc i) k ++ timer_add timer 30000 ∷ send_reply_chunk req (f i).1 ∷ calls
    unfolding chunk_calls
    chunk_calls-suc i k calls = append_assoc (chunk_calls (suc i) k) _ calls

    -- However often the timer fires, what was sent is a run of the callback's chunks in their order;
    -- and either the timer fired for each of them and is armed still, or the reply was ended once
    -- after them and the timer and the state were freed.
    fire_prefix :
        (n i : ℕ) (w : World)
        → (k : ℕ) × (k ≤ n)
          × (((k ≡ n)
                × (fire n (at_chunk i) w
                    ≡ (ok (some (at_chunk (i + k))), after_calls (chunk_calls i k) w)))
              ⊎ (fire n (at_chunk i) w
                  ≡ (ok none, after_calls (closing_calls ++ chunk_calls i k) w)))
    unfolding fire chunk_calls
    fire_prefix zero i w = (
      0,
      omega arith,
      inl (refl, (let e : i + 0 ≡ i = omega arith in rw e (unfold chunk_calls in refl))),
    )
    fire_prefix (suc n) i w = elim (Bool-cases (goes_on i w)) [
      | inl h ↦
          let (k, bound, ended) =
            fire_prefix n (suc i)
              (after_calls (timer_add timer 30000 ∷ send_reply_chunk req (f i).1 ∷ []) w) in
          let index : i + suc k ≡ suc i + k = omega arith in
          (
            suc k,
            omega arith,
            elim ended [
              | inl (all, q) ↦ inl (
                ap suc all,
                rw (trickle-on i w h, continue, index, chunk_calls-suc i k w.calls) q,
              )
              | inr q ↦ inr (rw (trickle-on i w h, continue, chunk_calls-suc i k w.calls) q)
            ],
          )
      | inr h ↦ (0, omega arith, inr (rw (trickle-off i w h)))
    ]

    -- While the connection stays, the reply of a callback that gives n chunks and then stops is
    -- finished once the timer has fired n + 1 times: it has all the chunks, in their order.
    pub fire_complete :
        (n i : ℕ) (w : World)
        → ((calls : List Call) → (pf.request_connection calls req == 0) ≡ false)
        → ((j : ℕ) → j < n → (f (i + j)).0 ≡ true)
        → (f (i + n)).0 ≡ false
        → fire (suc n) (at_chunk i) w ≡ (ok none, after_calls (closing_calls ++ chunk_calls i n) w)
    unfolding fire
    fire_complete zero i w alive more stop =
        let index : i + 0 ≡ i = omega arith in
        let stop' : (f i).0 ≡ false = rw index at stop in
        let off : goes_on i w ≡ false = rw stop' in
        rw (trickle-off i w off, continue) (unfold chunk_calls in refl)
    fire_complete (suc n) i w alive more stop =
        let index : i + 0 ≡ i = omega arith in
        let chunk : (f i).0 ≡ true = rw index at (more 0 (omega arith)) in
        let on : goes_on i w ≡ true = rw (chunk, alive w.calls) in
        let stop' : (f (suc i + n)).0 ≡ false =
          (let e : suc i + n ≡ i + suc n = omega arith in rw e stop) in
        rw (trickle-on i w on, continue, chunk_calls-suc i n w.calls)
          (fire_complete n (suc i)
            (after_calls (timer_add timer 30000 ∷ send_reply_chunk req (f i).1 ∷ []) w) alive
            (λ j below.
              let e : suc i + j ≡ i + suc j = omega arith in rw e (more (suc j) (omega arith)))
            stop')

    -- Every chunked reply is finished, whatever happens to the connection: if the callback has no
    -- chunk at its n-th call from the i-th on, then after n + 1 firings of the timer, at most, the
    -- reply was ended, after a run of the chunks, and the timer and the state were freed.
    pub fire_finishes :
        (n i : ℕ) (w : World)
        → (f (i + n)).0 ≡ false
        → (k : ℕ) × (k ≤ n)
          × (fire (suc n) (at_chunk i) w
              ≡ (ok none, after_calls (closing_calls ++ chunk_calls i k) w))
    unfolding fire
    fire_finishes zero i w stop =
        let index : i + 0 ≡ i = omega arith in
        let stop' : (f i).0 ≡ false = rw index at stop in
        let off : goes_on i w ≡ false = rw stop' in
        (0, omega arith, rw (trickle-off i w off, continue) (unfold chunk_calls in refl))
    fire_finishes (suc n) i w stop = elim (Bool-cases (goes_on i w)) [
      | inl on ↦
          let index : i + suc n ≡ suc i + n = omega arith in
          let (k, bound, q) =
            fire_finishes n (suc i)
              (after_calls (timer_add timer 30000 ∷ send_reply_chunk req (f i).1 ∷ []) w)
              (rw index at stop) in
          (suc k, omega arith, rw (trickle-on i w on, continue, chunk_calls-suc i k w.calls) q)
      | inr off ↦ (0, omega arith, rw (trickle-off i w off, continue) (unfold chunk_calls in refl))
    ]
