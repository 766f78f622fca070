-- ===== src/Tests/Drain.antt =====
-- A sender that empties a queue.
use client_shared_lib.Base.{refl, none, some, [], ◌∷◌, arith}
use client_shared_lib.Base.Int.{pos}
use client_shared_lib.Mem.{Store, node, write}
use client_shared_lib.Mem.Returns.{Returns}
use client_shared_lib.Mem.Seg.{Cells, IsQueue, Exact, nil, cons}
use client_shared_lib.Types.{Msg}
use client_shared_lib.Wire.{sent, would_block, outbound}
use client_shared_lib.Wire.RoundTrip.{taken, some_bytes, waits}
use client_shared_lib.Sender.{Sender, send_rounds}
use client_shared_lib.Sender.Drain.{
  Accepts, accepted, passes, takes, Drained, frames, own, send_rounds-Drained,
}
use client_shared_lib.Tests.Sample.{id_a, id_b, id_c, msg, globals, con}
use client_shared_lib.Tests.Connect.{peers}
use client_shared_lib.Tests.Connect

abbrev queued : Cells Msg
queued = (30, msg id_a 0) ∷ (31, msg id_b 1) ∷ (32, msg id_c 0) ∷ []

abbrev queue_store : Store Msg
queue_store = record {
  heap =
      write
        (write
          (write (write (λ _. none) 30 (some (node (msg id_a 0) 0 31))) 31
            (some (node (msg id_b 1) 30 32)))
          32 (some (node (msg id_c 0) 31 33)))
        33 (some (node (msg id_a 1) 32 0));
  head = 30;
}

queue_store-IsQueue :
    IsQueue Exact queue_store
      ((30, msg id_a 0) ∷ (31, msg id_b 1) ∷ (32, msg id_c 0) ∷ (33, msg id_a 1) ∷ [])
unfolding write
queue_store-IsQueue = cons {c = 0} (ground arith) refl refl (
    cons {c = 30} (ground arith) refl refl
      (cons {c = 31} (ground arith) refl refl (cons {c = 32} (ground arith) refl refl nil)))

-- Both connections are up; the kernel takes the two messages for peer 0 in pieces.
abbrev sender : Sender
sender = record {
  globals = record globals { msgs = queue_store; conns = con 0 1 ∷ con 1 1 ∷ [] };
  out =
      outbound (sent 4 ∷ sent 2 ∷ would_block ∷ sent 4 ∷ sent 1 ∷ sent 1 ∷ sent 9 ∷ []) (b'x' ∷ []);
  calls = [];
}

sender-Accepts : Accepts (pos 0) (sent 9 ∷ []) queued (sender.out.answers)
sender-Accepts = takes refl refl (omega arith) (some_bytes 3 refl taken) (some_bytes 1 refl taken) (
    passes refl (
      takes refl refl (omega arith) (waits (some_bytes 3 refl taken))
        (some_bytes 0 refl (some_bytes 0 refl taken)) accepted))

send_rounds-Drained_example :
    Returns
      (Drained sender
        (sent 9 ∷ [])
        (frames (pos 0) queued)
        (own (pos 0) queued)
        ((31, msg id_b 1) ∷ (33, msg id_a 1) ∷ []))
      (send_rounds 5 peers 0 (Connect.accepted ∷ Connect.accepted ∷ Connect.accepted ∷ []) sender)
send_rounds-Drained_example =
    send_rounds-Drained 5 peers 0 0 33 (msg id_a 1) refl queued
      (Connect.accepted ∷ Connect.accepted ∷ Connect.accepted ∷ []) sender sender-Accepts
      (record { c = con 0 1; entry = refl; live = refl; peer = refl }) queue_store-IsQueue
      (omega arith) (omega arith)
