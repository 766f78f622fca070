-- ===== src/Tests/System.antt =====
-- Both queues and the table: a connection is lost and restored, and a message is queued.
use client_shared_lib.Base.{refl, List, [], ◌∷◌, ◌++◌, ◌≡◌, arith, str_eq}
use client_shared_lib.Base.Int.{pos}
use client_shared_lib.Mem.{write}
use client_shared_lib.Mem.Returns
use client_shared_lib.Mem.Returns.{Returns}
use client_shared_lib.Types.{Globals}
use client_shared_lib.IdQueue.Entries.{find}
use client_shared_lib.Connect.{EndPeer, Dial, recreate_conn, conn_at}
use client_shared_lib.Dispatch.{set_down}
use client_shared_lib.System.Order.{delivered, queued, for_con, Reach-in_order}
use client_shared_lib.System.{Op, take, send, drop, restore, perform}
use client_shared_lib.System.Invariant.{
  WellFormed, Allowed, inner, can_take, can_send, can_drop, can_restore, Reach, here, later,
}
use client_shared_lib.System.Safety.{Reach-Returns}
use client_shared_lib.System.Service.{view, items}
use client_shared_lib.System.Achieved.{Represents}
use client_shared_lib.System.Refinement.{Served, operations, performed, perform-Served}
use client_shared_lib.Tests.Sample.{
  id_a, id_b, msg, id_c, time, ids, id_store-IsQueue, msgs, msg_store-IsQueue, globals, con,
  push_args,
}
use client_shared_lib.Tests.Msgs.{CanPush-c}

globals-WellFormed : WellFormed globals
unfolding find str_eq
globals-WellFormed = record {
  entries = ids;
  messages = msgs;
  ids = id_store-IsQueue;
  msgs = msg_store-IsQueue;
  distinct = (refl, (refl, tt));
  served = (omega arith, (omega arith, tt));
  routed = ((1, refl, omega arith), ((0, refl, omega arith), ((1, refl, omega arith), tt)));
  peers = record { table = refl; counter = omega arith };
}

abbrev peers : List EndPeer
peers = record { ip = b'a' ∷ []; port = 8080 } ∷ record { ip = b'b' ∷ []; port = 8081 } ∷ []

abbrev dialed : Dial
dialed = record { sock = pos 9; rc = pos 0 }

-- the state in which the second connection is down, and the one after it has been restored
abbrev lost : Globals
lost = record globals { conns = con 0 0 ∷ record (con 1 1) { state = 0 } ∷ [] }

abbrev restored : Globals
restored = record globals { conns = con 0 0 ∷ record (con 1 1) { fd = pos 9 } ∷ [] }

restored-Reach : Reach globals restored
unfolding perform set_down recreate_conn conn_at
restored-Reach =
    later (restore 1 peers dialed) (later {h' = lost} (drop 1) here (can_drop (omega arith)) refl)
      (can_restore (omega arith) refl refl) refl

abbrev sent : Op
sent = send 4 2 23 12 (time 125) (push_args id_c)

sent-Allowed : Allowed restored sent
unfolding write
sent-Allowed =
    can_send
      (record {
        ids = CanPush-c.ids;
        msgs = CanPush-c.msgs;
        ids_fuel = CanPush-c.ids_fuel;
        msgs_fuel = CanPush-c.msgs_fuel;
        fresh = CanPush-c.fresh;
        unused = CanPush-c.unused;
        given = CanPush-c.given;
        fits = CanPush-c.fits;
      })
      (λ new. record {
        fresh = refl;
        unused = refl;
        peer = 1;
        in_table = omega arith;
        up = (record (con 1 1) { fd = pos 9 }, refl, refl);
        spins = omega arith;
      })

Reach-Returns_example : Returns (λ _. WellFormed) (perform sent restored)
Reach-Returns_example = Reach-Returns sent globals-WellFormed restored-Reach sent-Allowed

globals-Represents : Represents globals ids msgs
globals-Represents = record {
  ids = id_store-IsQueue;
  msgs = msg_store-IsQueue;
  peers = record { table = refl; counter = omega arith };
}

perform-Served_example :
    Returns
      (λ _ h'.
        (served : Served (view ids msgs globals) h') × (operations served.serves
          ≡ performed restored-Reach ++ sent ∷ []))
      (perform sent restored)
perform-Served_example = perform-Served sent globals-Represents restored-Reach sent-Allowed

-- the sender of the first connection takes the message in the middle
middle-Allowed : Allowed globals (take 4 (pos 0))
middle-Allowed =
    can_take msg_store-IsQueue (omega arith)
      (inner {y = 20} {b = msg id_a 1} [] 21 (msg id_b 0) 22 (msg id_a 1) [] refl tt refl)

taken-Reach : (g : Globals) × Reach globals g
taken-Reach =
    let (u, g, done, well) =
      Returns.result (Reach-Returns (take 4 (pos 0)) globals-WellFormed here middle-Allowed) in
    (g, later (take 4 (pos 0)) here middle-Allowed done)

Reach-in_order_example :
    (served : Served (view ids msgs globals) (taken-Reach.0)) × (operations served.serves
      ≡ performed (taken-Reach.1))
    × (delivered (pos 0) (taken-Reach.1) ++ for_con (pos 0) (items served.messages)
        ≡ for_con (pos 0) (items msgs ++ queued served.serves))
Reach-in_order_example = Reach-in_order (pos 0) globals-Represents (taken-Reach.1)
