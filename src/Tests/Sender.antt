-- ===== src/Tests/Sender.antt =====
-- Sending.
use client_shared_lib.Base.{ℕ, zero, suc, ◌≡◌, refl, false, none, [], ◌∷◌, ◌++◌, arith, str_eq}
use client_shared_lib.Base.Int.{pos}
use client_shared_lib.Mem.{null, write, fault, pure, ◌>>◌}
use client_shared_lib.Mem.Returns
use client_shared_lib.Mem.Returns.{Returns, returns}
use client_shared_lib.Mem.Seg.{IsQueue, Exact, nil, eq_of_nil}
use client_shared_lib.Types.Lift.{put_msgs-Returns}
use client_shared_lib.MsgQueue.Push.{CanPush, push_to_msgq-new}
use client_shared_lib.MsgQueue.Pop.{pop_from_msgq-first}
use client_shared_lib.Tests.Sample.{id_store-IsQueue}
use client_shared_lib.Types.{Globals, on_msgs}
use client_shared_lib.Peers.RoundRobin.{IsUp}
use client_shared_lib.IdQueue.Entries.{find}
use client_shared_lib.MsgQueue.{new_msg, push_to_msgq, pop_from_msgq}
use client_shared_lib.Sender.{ready_to_send}
use client_shared_lib.Sender.Ready.{ready_to_send-race, ready_to_send-wakes}
use client_shared_lib.Tests.Sample.{id_c, time, ids, msgs, globals, con, push_args}
use client_shared_lib.Tests.Msgs.{CanPush-c}

ready_to_send-wakes_example :
    Returns
      (λ wakes g'.
        (c : ℕ) × IsUp globals.conns c
        × (wakes ≡ false)
        × IsQueue Exact g'.msgs (msgs ++ (23, new_msg (push_args id_c) (pos c)) ∷ []))
      (ready_to_send (pure tt) 4 2 23 12 (time 125) (push_args id_c) globals)
unfolding find str_eq write
ready_to_send-wakes_example =
    ready_to_send-wakes 4 2 23 12 (time 125) (push_args id_c) globals 1 CanPush-c refl refl refl
      (record { table = refl; counter = omega arith }) (omega arith) (con 1 1, refl, refl)
      (omega arith)

-- an empty queue, from which a sender takes the new message at once
abbrev pub idle : Globals
idle = record globals { msgs = record { heap = λ p. none; head = null } }

pub idle-CanPush : CanPush 4 23 (push_args id_c) idle ids []
idle-CanPush = record {
  ids = id_store-IsQueue;
  msgs = nil;
  ids_fuel = omega arith;
  msgs_fuel = omega arith;
  fresh = refl;
  unused = refl;
  given = refl;
  fits = refl;
}

IsUp-second : (c : ℕ) → IsUp idle.conns c → c ≡ 1
IsUp-second zero (x, at_c, live) = absurd (ground (arith, at_c, live))
IsUp-second (suc zero) up = refl
IsUp-second (suc (suc c)) (x, at_c, live) = cc

-- the sender of the second connection takes the message
idle-drained :
    Returns
      (λ _ g'. g'.msgs.head ≡ null)
      ((push_to_msgq 4 2 23 12 (time 125) (push_args id_c)
          >> (on_msgs (pop_from_msgq 4 (pos 1)) >> pure tt))
        idle)
unfolding find str_eq write
idle-drained =
    Returns.bind
      (push_to_msgq-new 4 2 23 12 (time 125) (push_args id_c) idle idle-CanPush 1 refl refl refl
        (record { table = refl; counter = omega arith }) (omega arith) (con 1 1, refl, refl)
        (omega arith))
      λ _ g' (c, up, _, queue, _, _, _).
        Returns.bind
          (put_msgs-Returns g'
            (pop_from_msgq-first (pos 1) 4 (g'.msgs) queue (rw (IsUp-second c up))))
          λ p g'' (t, same, (_, empty, _)). returns (rw same (eq_of_nil empty))

ready_to_send-race_example :
    ready_to_send
      (on_msgs (pop_from_msgq 4 (pos 1)) >> pure tt)
      4
      2
      23
      12
      (time 125)
      (push_args id_c)
      idle
    ≡ fault
ready_to_send-race_example =
    ready_to_send-race 4 2 23 12 (time 125) (push_args id_c) idle
      (on_msgs (pop_from_msgq 4 (pos 1)) >> pure tt) idle-drained
