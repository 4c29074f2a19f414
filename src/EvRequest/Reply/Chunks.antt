-- ===== src/EvRequest/Reply/Chunks.antt =====
-- The chunked reply of an EvRequest while libevent calls Chunk_cb.
use easy_http.Prelude.{
  ℕ, zero, suc, ◌≡◌, refl, ap, ◌∙◌, sym, arith, List, [], ◌∷◌, ◌++◌, some, true, false, not, ◌&&◌,
  ◌==◌, Bool-cases, inl, inr,
}
use easy_http.Bytes.{Bytes, text}
use easy_http.Outcome.{Outcome, ok}
use easy_http.World.{World}
use easy_http.World.Calls.{Call, send_reply_start, send_reply_chunk_with_cb, send_reply_end}
use easy_http.RequestBase.{ChunkCallback}
use easy_http.EvRequest.{EvRequest}
use easy_http.EvRequest.Reply.{chunk_cb, set_chunk_callback, reply}
use easy_http.RequestBase.Reply.{is_request}
use easy_http.Prelude.Int.{ℤ}

-- The object and the world.
abbrev pub State : Type 0
State = EvRequest × World

ran :
    {A B : Type 0} {a b : A} {u v : B}
    → ◌≡◌ {A = Outcome A × B} (ok a, u) (ok b, v)
    → (a ≡ b) × (u ≡ v)
ran e = (ground arith, ground arith)

module _ (this : ℕ) where
  -- libevent has sent a chunk with the object as the callback's argument, and calls Chunk_cb with a
  -- connection, or with NULL where it was closed.
  pub data Step (s t : State) : Type 0 where
    called :
        (con e_request : ℕ) (chunk : Bytes) (before : List Call)
        → s.1.calls ≡ send_reply_chunk_with_cb e_request chunk this ∷ before
        → chunk_cb con this s.0 s.1 ≡ (ok t.0, t.1)
        → Step s t

  pub data Reach (s : State) : State → Type 0 where
    here : Reach s s
    next : {t u : State} → Reach s t → Step t u → Reach s u

  module _ (f : ChunkCallback) (e_request : ℕ) where
    -- The calls that send the first chunks of the callback, the latest first.
    unfoldable pub sent : ℕ → List Call
    sent zero = []
    sent (suc k) = send_reply_chunk_with_cb e_request (f k).1 this ∷ sent k

    -- What has been sent since the opening: k chunks, and then perhaps the end.
    pub data IsReply (opening : List Call) (s : State) : Type 0 where
      going :
          (k : ℕ)
          → s.0.chunk_callback ≡ some f
          → s.0.e_request ≡ e_request
          → s.0.chunks_asked ≡ k
          → s.1.calls ≡ sent k ++ opening
          → IsReply opening s
      ended : (k : ℕ) → s.1.calls ≡ send_reply_end e_request ∷ sent k ++ opening → IsReply opening s

    after : EvRequest → EvRequest
    after self = record self { chunks_asked = suc self.chunks_asked }

    chunk_cb-on :
        (con : ℕ) (self : EvRequest) (w : World)
        → self.chunk_callback ≡ some f
        → ((f self.chunks_asked).0 && not (con == 0)) ≡ true
        → chunk_cb con this self w ≡ (
          ok (after self),
          record w {
            calls = send_reply_chunk_with_cb self.e_request (f self.chunks_asked).1 this ∷ w.calls;
          },
        )
    unfolding chunk_cb after
    chunk_cb-on con self w c h = rw (c, h)

    chunk_cb-off :
        (con : ℕ) (self : EvRequest) (w : World)
        → self.chunk_callback ≡ some f
        → ((f self.chunks_asked).0 && not (con == 0)) ≡ false
        → chunk_cb con this self w
          ≡ (ok (after self), record w { calls = send_reply_end self.e_request ∷ w.calls })
    unfolding chunk_cb after
    chunk_cb-off con self w c h = rw (c, h)

    Step-IsReply :
        (opening : List Call) (s t : State) → Step s t → IsReply opening s → IsReply opening t
    unfolding sent after
    Step-IsReply opening s t (called con e chunk before pending run) (going k c r a q) =
        elim (Bool-cases ((f s.0.chunks_asked).0 && not (con == 0))) [
          | inl on ↦
              let (o, w) = ran (sym (chunk_cb-on con s.0 s.1 c on) ∙ run) in
              going (suc k) (sym (ap (λ (x : EvRequest). x.chunk_callback) o) ∙ c)
                (sym (ap (λ (x : EvRequest). x.e_request) o) ∙ r)
                (sym (ap (λ (x : EvRequest). x.chunks_asked) o) ∙ ap suc a)
                (sym (ap (λ (x : World). x.calls) w) ∙ rw (r, a, q))
          | inr off ↦
              let (o, w) = ran (sym (chunk_cb-off con s.0 s.1 c off) ∙ run) in
              ended k (sym (ap (λ (x : World). x.calls) w) ∙ rw (r, q))
        ]
    Step-IsReply opening s t (called con e chunk before pending run) (ended k q) = cc

    Reach-IsReply :
        (opening : List Call) (s t : State) → IsReply opening s → Reach s t → IsReply opening t
    Reach-IsReply opening s t start here = start
    Reach-IsReply opening s t start (next {t = u} reached step) =
        Step-IsReply opening u t step (Reach-IsReply opening s u start reached)

  -- A chunked reply of an EvRequest that was received: whenever libevent calls Chunk_cb, and with
  -- whatever connections, what has been sent is the start of the reply, the empty chunk, a run of the
  -- callback's chunks in their order, and perhaps the end of the reply, once and as the last.
  pub reply-IsReply :
      (f : ChunkCallback) (self : EvRequest) (status_code : ℤ) (w : World) (t : State)
      → is_request self.request_type ≡ false
      → Reach
          (
            set_chunk_callback (some f) self,
            (reply this (set_chunk_callback (some f) self) status_code w).1,
          )
          t
      → IsReply f self.e_request
          (send_reply_chunk_with_cb self.e_request [] this
            ∷ send_reply_start self.e_request status_code (text "OK")
            ∷ w.calls)
          t
  unfolding set_chunk_callback reply sent
  reply-IsReply f self status_code w t received reached =
      Reach-IsReply f self.e_request _ _ t (going 0 refl refl refl (rw received)) reached
