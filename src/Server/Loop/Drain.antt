-- ===== src/Server/Loop/Drain.antt =====
-- The armed timers run out.
use mathlib.Core.Path.{subst}
use easy_http.Prelude.{
  ℕ, suc, zero, ◌+◌, ◌≤◌, ◌≡◌, refl, sym, ap, arith, List, [], ◌∷◌, ◌++◌, Option, none, some, true,
  false, Bool-cases, ◌⊎◌, inl, inr, All,
}
use easy_http.Outcome.{ok}
use easy_http.World.{World}
use easy_http.World.External.{Platform}
use easy_http.RequestBase.{ChunkCallback}
use easy_http.RequestBase.Reply.{ChunkState, trickle}
use easy_http.RequestBase.Reply.Chunks.{at_chunk, goes_on, trickle-on, trickle-off}
use easy_http.Server.Loop.{Loop, rearm}

-- The state's callback has no chunk at its n-th call from now on.
pub record IsStopping (state : ChunkState) : Type 0 where
  pub callback : ChunkCallback
  pub calls : ℕ
  pub get_chunk : state.get_chunk ≡ some callback
  pub stops : (callback (state.i + calls)).0 ≡ false

-- How often the timers of the states fire, at most.
abbrev pub rounds : (states : List ChunkState) → All IsStopping states → ℕ
rounds [] h = 0
rounds (state ∷ states) (h, hs) = suc h.calls + rounds states hs

module _ (pf : Platform) where
  -- k firings of armed timers, in any order.
  pub data Fires (a : Loop) : ℕ → Loop → Type 0 where
    start : Fires a 0 a
    again :
        {k : ℕ} {b c : Loop} (front back : List ChunkState) (state : ChunkState)
        (left : Option ChunkState)
        → Fires a k b
        → b.armed ≡ front ++ state ∷ back
        → trickle pf state b.world ≡ (ok left, c.world)
        → c.armed ≡ front ++ rearm left back
        → Fires a (suc k) c

  -- A firing at a state whose callback has n + 1 calls left leaves it n of them, or ends the reply.
  module _ (state : ChunkState) (h : IsStopping state) where
    abbrev pub Fired : World → Type 0
    Fired w =
        (left : Option ChunkState) × (v : World) × (trickle pf state w ≡ (ok left, v))
        × ((states : List ChunkState) (hs : All IsStopping states)
            → (hs' : All IsStopping (rearm left states)) × (suc (rounds (rearm left states) hs')
                ≤ suc h.calls + rounds states hs))

    here_lem : at_chunk pf state.req state.timer h.callback state.i ≡ state
    here_lem = ap (λ o. record state { get_chunk = o }) (sym h.get_chunk)

    there_lem :
        at_chunk pf state.req state.timer h.callback (suc state.i)
        ≡ record state { i = suc state.i }
    there_lem = ap (λ o. record state { get_chunk = o; i = suc state.i }) (sym h.get_chunk)

    goes_on-chunk :
        (w : World)
        → goes_on pf state.req state.timer h.callback state.i w ≡ true
        → (h.callback state.i).0 ≡ true
    goes_on-chunk w on = ground arith

    goes_on-Fired :
        (n : ℕ) (w : World)
        → h.calls ≡ n
        → goes_on pf state.req state.timer h.callback state.i w ≡ true
        → Fired w
    goes_on-Fired zero w e on =
        let index : state.i + h.calls ≡ state.i = omega (arith, e) in
        let stop = rw index at h.stops in let chunk = goes_on-chunk w on in cc
    goes_on-Fired (suc n) w e on = (
      some (record state { i = suc state.i }),
      _,
      rw (here_lem, there_lem) at (trickle-on pf state.req state.timer h.callback state.i w on),
      λ states hs. (
        (
          record {
            callback = h.callback;
            calls = n;
            get_chunk = h.get_chunk;
            stops =
                (let index : suc state.i + n ≡ state.i + h.calls = omega (arith, e) in
                  rw index h.stops);
          },
          hs,
        ),
        omega (arith, e),
      ),
    )

    fired : (w : World) → Fired w
    fired w = elim (Bool-cases (goes_on pf state.req state.timer h.callback state.i w)) [
      | inl on ↦ goes_on-Fired h.calls w refl on
      | inr off ↦ (
        none,
        _,
        rw here_lem at (trickle-off pf state.req state.timer h.callback state.i w off),
        λ states hs. (hs, omega arith),
      )
    ]

  -- The same of a firing among others.
  fires-rounds :
      (front back : List ChunkState) (state : ChunkState) (left : Option ChunkState) (w v : World)
      → trickle pf state w ≡ (ok left, v)
      → (hs : All IsStopping (front ++ state ∷ back))
      → (hs' : All IsStopping (front ++ rearm left back)) × (suc
            (rounds (front ++ rearm left back) hs')
          ≤ rounds (front ++ state ∷ back) hs)
  fires-rounds [] back state left w v e (h, hs) =
      let (left', v', e', r) = fired state h w in
      let same : left' ≡ left = cc in
      subst
        (λ o.
          (hs' : All IsStopping (rearm o back)) × (suc (rounds (rearm o back) hs')
            ≤ suc h.calls + rounds back hs))
        same (r back hs)
  fires-rounds (x ∷ front) back state left w v e (h, hs) =
      let (hs', r) = fires-rounds front back state left w v e hs in ((h, hs'), omega arith)

  among-rounds :
      (front back : List ChunkState) (state : ChunkState) (left : Option ChunkState) (w v : World)
      → trickle pf state w ≡ (ok left, v)
      → {xs ys : List ChunkState} → xs ≡ front ++ state ∷ back
      → ys ≡ front ++ rearm left back
      → (hs : All IsStopping xs) → (hs' : All IsStopping ys) × (suc (rounds ys hs') ≤ rounds xs hs)
  among-rounds front back state left w v e {xs} {ys} p q =
      subst
        (λ zs.
          (hs : All IsStopping zs)
          → (hs' : All IsStopping ys) × (suc (rounds ys hs') ≤ rounds zs hs))
        (sym p)
        (λ hs.
          subst
            (λ zs.
              (hs' : All IsStopping zs) × (suc (rounds zs hs') ≤ rounds (front ++ state ∷ back) hs))
            (sym q) (fires-rounds front back state left w v e hs))

  -- However often the timers have fired, what is left of the rounds.
  Fires-rounds :
      {a b : Loop} {k : ℕ} (hs : All IsStopping a.armed)
      → Fires a k b
      → (hs' : All IsStopping b.armed) × (k + rounds b.armed hs' ≤ rounds a.armed hs)
  Fires-rounds hs start = (hs, omega arith)
  Fires-rounds hs (again {b = b} {c = c} front back state left r armed e rest) =
      let (hb, q) = Fires-rounds hs r in
      let (hc, l) = among-rounds front back state left b.world c.world e armed rest hb in
      (hc, omega arith)

  -- An armed timer can fire.
  progress :
      {a b : Loop} {k : ℕ} (states : List ChunkState)
      → b.armed ≡ states
      → All IsStopping states
      → Fires a k b
      → (b.armed ≡ []) ⊎ ((c : Loop) × Fires a (suc k) c)
  progress [] e hs r = inl e
  progress {b = b} (state ∷ states) e (h, hs) r =
      let (left, v, fires, rest) = fired state h b.world in
      inr
        (record { armed = rearm left states; world = v }, again [] states state left r e fires refl)

  -- If the callback of every armed reply stops at some call, the timers run out, whatever the order
  -- in which they fire and whatever happens to the connections: there is a bound on how often they
  -- fire, and as long as one is armed one can fire.
  pub Fires-bounded :
      (a : Loop)
      → All IsStopping a.armed
      → (bound : ℕ) × ((k : ℕ) (b : Loop)
          → Fires a k b
          → (k ≤ bound) × ((b.armed ≡ []) ⊎ ((c : Loop) × Fires a (suc k) c)))
  Fires-bounded a hs = (
    rounds a.armed hs,
    λ k b r. let (hb, q) = Fires-rounds hs r in (omega arith, progress b.armed refl hb r),
  )
