-- ===== src/Server/Lifecycle/Life.antt =====
-- The life of a server: its constructor, and then Start, Stop and the destructor in any order, each
-- called when the one before has returned.
use mathlib.Core.Path.{subst}
use easy_http.Prelude.{◌==◌, ◌≡◌, refl, List, false, Bool-cases, inl, inr}
use easy_http.Prelude.Int.{ℤ}
use easy_http.Bytes.{Bytes, text}
use easy_http.Outcome.{Outcome, ok, throw, undefined}
use easy_http.World.{World}
use easy_http.World.Calls.{Call, config_new}
use easy_http.World.External.{Platform}
use easy_http.World.Objects.{AreSafe}
use easy_http.Server.{Server, new_server}
use easy_http.Server.Lifecycle.{start, stop, destroy, construct}
use easy_http.Server.Lifecycle.Safety.{IsSound, EndsSound, stop-EndsSound}
use easy_http.Server.Lifecycle.Safety.Starting.{start-EndsSound}

module _ (pf : Platform) where
  -- One of the methods is called, and returns.
  pub data Step (a b : Server × World) : Type 0 where
    starts : (r : ℤ) → start pf a.0 a.1 ≡ (ok (r, b.0), b.1) → Step a b
    stops : (r : ℤ) → stop a.0 a.1 ≡ (ok (r, b.0), b.1) → Step a b
    destroys : (r : ℤ) → destroy a.0 a.1 ≡ (ok (r, b.0), b.1) → Step a b

  pub data Life (a : Server × World) : Server × World → Type 0 where
    here : Life a a
    next : {b c : Server × World} → Life a b → Step b c → Life a c

  module _ (some_config : (calls : List Call) → (pf.pointer calls config_new == 0) ≡ false) where
    Step-IsSound : (a b : Server × World) → Step a b → IsSound pf a.0 a.1 → IsSound pf b.0 b.1
    unfolding destroy
    Step-IsSound a b (starts r e) sound =
        subst (EndsSound pf) e (start-EndsSound pf a.0 a.1 some_config sound)
    Step-IsSound a b (stops r e) sound = subst (EndsSound pf) e (stop-EndsSound pf a.0 a.1 sound)
    Step-IsSound a b (destroys r e) sound = subst (EndsSound pf) e (stop-EndsSound pf a.0 a.1 sound)

    Life-IsSound : {a b : Server × World} → Life a b → IsSound pf a.0 a.1 → IsSound pf b.0 b.1
    Life-IsSound here sound = sound
    Life-IsSound (next life step) sound = Step-IsSound _ _ step (Life-IsSound life sound)

    -- The world and the object after the constructor.
    abbrev IsNew : Outcome Server × World → Type 0
    IsNew (ok s, w) = AreSafe pf w.calls × (s.is_started ≡ false)
    IsNew (throw e, w) = Unit
    IsNew (undefined, w) = Unit

    construct-IsNew :
        (ip : Bytes) (port : ℤ) (w : World) → AreSafe pf w.calls → IsNew (construct pf ip port w)
    unfolding construct new_server AreSafe
    construct-IsNew ip port w safe =
        elim (Bool-cases (pf.is_in_environment (text "EVENT_DEBUG_LOGGING_ALL"))) [
          | inl e ↦ rw e ((tt, safe), refl)
          | inr e ↦ rw e (safe, refl)
        ]

    -- If libevent always gives a configuration, then in the life of a server, whatever Start returns
    -- and however often it and Stop are called, every call is made of an event base, an HTTP server, a
    -- configuration and an event that libevent made and that are not freed: nothing is freed twice,
    -- and nothing is used after it was freed.
    pub Life-AreSafe :
        (ip : Bytes) (port : ℤ) (s s' : Server) (w w0 w' : World)
        → AreSafe pf w.calls
        → construct pf ip port w ≡ (ok s, w0)
        → Life (s, w0) (s', w')
        → AreSafe pf w'.calls
    Life-AreSafe ip port s s' w w0 w' safe constructs life =
        let is_new : IsNew (ok s, w0) = subst IsNew constructs (construct-IsNew ip port w safe) in
        (Life-IsSound life (is_new.0, λ started. cc (is_new.1, started))).0
