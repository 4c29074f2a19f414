-- ===== src/Tests/Objects.antt =====
-- Examples of the objects of EvRequest.
use easy_http.Prelude.{ltb, [], ◌∷◌, none, some, true, false, ◌≡◌, refl}
use easy_http.Prelude.Int.{pos}
use easy_http.Bytes.{text}
use easy_http.Outcome.{undefined}
use easy_http.World.Calls.{send_reply_start, send_reply_chunk_with_cb}
use easy_http.RequestBase.{RequestBase, ChunkCallback, request, response}
use easy_http.EvRequest.{EvRequest, destroy, move_assign}
use easy_http.EvRequest.Reply.{set_chunk_callback, chunk_cb, reply}
use easy_http.EvRequest.Reply.Chunks.{State, called, Reach, here, next, IsReply, reply-IsReply}
use easy_http.EvRequest.Agreement.{Agrees, agrees}
use easy_http.EvRequest.Agreement.Sending.{SendsAlike, sends_alike}
use easy_http.EvRequest.Lifetime.{destroy-move_assign}
use easy_http.Tests.{sample_platform, sample_world, sample_base}

abbrev received : EvRequest
received = record {
  request_type = response;
  e_request = 4;
  e_uri = 2;
  response_handler = 0;
  request_complete = false;
  is_chunked = false;
  chunk_callback = none;
  chunks_asked = 0;
}

abbrev one_chunk : ChunkCallback
one_chunk i = (ltb i 1, text "chunk")

-- The object at the address 9 with its reply begun, after the first chunk, and after the end.
abbrev begun : State
begun = (
  set_chunk_callback (some one_chunk) received,
  (reply 9 (set_chunk_callback (some one_chunk) received) (pos 200) sample_world).1,
)

abbrev first : State
first = (
  record received { chunk_callback = some one_chunk; is_chunked = true; chunks_asked = 1 },
  (chunk_cb 3 9 begun.0 begun.1).1,
)

abbrev finished : State
finished = (
  record received { chunk_callback = some one_chunk; is_chunked = true; chunks_asked = 2 },
  (chunk_cb 3 9 first.0 first.1).1,
)

finished-Reach : Reach 9 begun finished
unfolding set_chunk_callback reply chunk_cb
finished-Reach =
    next (next here (called 3 4 [] _ refl refl)) (called 3 4 (text "chunk") _ refl refl)

reply-IsReply_example :
    IsReply 9 one_chunk received.e_request
      (send_reply_chunk_with_cb 4 [] 9
        ∷ send_reply_start 4 (pos 200) (text "OK")
        ∷ sample_world.calls)
      finished
reply-IsReply_example =
    reply-IsReply 9 one_chunk received (pos 200) sample_world finished refl finished-Reach

destroy-move_assign_example :
    (destroy sample_platform (move_assign none received received).1 sample_world
      ≡ (undefined, sample_world))
    × (destroy sample_platform (move_assign none received received).0 sample_world
        ≡ destroy sample_platform received sample_world)
destroy-move_assign_example =
    destroy-move_assign sample_platform none received received sample_world

-- The object of the other class with the same pointers.
abbrev other_class : RequestBase
other_class = record sample_base { e_request = 4; e_uri = 2 }

agrees_example : Agrees sample_platform other_class received
agrees_example = agrees sample_platform received other_class refl refl

-- Objects of both classes to send, with the same pointers.
abbrev to_send : EvRequest
to_send = record received { request_type = request }

abbrev other_to_send : RequestBase
other_to_send = record other_class { request_type = request }

sends_alike_example : SendsAlike sample_platform to_send other_to_send
sends_alike_example = sends_alike sample_platform to_send other_to_send refl refl refl refl
