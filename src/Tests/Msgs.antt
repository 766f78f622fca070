-- ===== src/Tests/Msgs.antt =====
-- The message queue.
use client_shared_lib.Base.{
  str_eq, ℕ, ◌+◌, ◌%◌, ◌≡◌, refl, none, some, [], ◌∷◌, ◌++◌, arith, str_eq,
}
use client_shared_lib.Base.Int.{pos}
use client_shared_lib.Mem.{Store, node, write, fault, free, ◌>>=◌, ◌>>◌}
use client_shared_lib.Mem.Returns.{Returns}
use client_shared_lib.Mem.Seg.{nil, cons, Cells, IsQueue, Loose, Exact}
use client_shared_lib.Types.{Msg}
use client_shared_lib.Peers.RoundRobin.{IsUp}
use client_shared_lib.IdQueue.Entries.{find, refresh}
use client_shared_lib.IdQueue.Add.{entry_at}
use client_shared_lib.MsgQueue.{new_msg, push_to_msgq, pop_from_msgq}
use client_shared_lib.MsgQueue.Push.{CanPush, push_to_msgq-known, push_to_msgq-new}
use client_shared_lib.MsgQueue.Dangling.{pop_from_msgq-use_after_free}
use client_shared_lib.Tests.Sample.{
  id_a, id_b, id_c, time, entry_a, ids, id_store-IsQueue, msg, msgs, msg_store-IsQueue, globals,
  con, push_args,
}

CanPush-a : CanPush 4 23 (push_args id_a) globals ids msgs
unfolding write
CanPush-a = record {
  ids = id_store-IsQueue;
  msgs = msg_store-IsQueue;
  ids_fuel = omega arith;
  msgs_fuel = omega arith;
  fresh = refl;
  unused = refl;
  given = refl;
  fits = refl;
}

pub CanPush-c : CanPush 4 23 (push_args id_c) globals ids msgs
unfolding write
CanPush-c = record {
  ids = id_store-IsQueue;
  msgs = msg_store-IsQueue;
  ids_fuel = omega arith;
  msgs_fuel = omega arith;
  fresh = refl;
  unused = refl;
  given = refl;
  fits = refl;
}

push_to_msgq-known_example :
    Returns
      (λ _ g'.
        IsQueue Loose g'.ids (refresh (time 125) id_a 80 81 ids)
        × IsQueue Exact g'.msgs (msgs ++ (23, new_msg (push_args id_a) (pos 1)) ∷ [])
        × (g'.rr ≡ 0)
        × (g'.conns ≡ globals.conns)
        × (g'.num_peers ≡ 2))
      (push_to_msgq 4 2 23 12 (time 125) (push_args id_a) globals)
unfolding find str_eq
push_to_msgq-known_example =
    push_to_msgq-known 4 2 23 12 (time 125) (push_args id_a) globals CanPush-a entry_a refl

push_to_msgq-new_example :
    Returns
      (λ _ g'.
        (c : ℕ) × IsUp globals.conns c
        × IsQueue Loose g'.ids (ids ++ (12, entry_at (time 125) id_c 80 81 c) ∷ [])
        × IsQueue Exact g'.msgs (msgs ++ (23, new_msg (push_args id_c) (pos c)) ∷ [])
        × (g'.rr ≡ (c + 1) % 2)
        × (g'.conns ≡ globals.conns)
        × (g'.num_peers ≡ 2))
      (push_to_msgq 4 2 23 12 (time 125) (push_args id_c) globals)
unfolding find str_eq write
push_to_msgq-new_example =
    push_to_msgq-new 4 2 23 12 (time 125) (push_args id_c) globals CanPush-c 1 refl refl refl
      (record { table = refl; counter = omega arith }) (omega arith) (con 1 1, refl, refl)
      (omega arith)

-- Two messages; the last is for the other connection.
abbrev two : Cells Msg
two = (20, msg id_a 1) ∷ (21, msg id_b 0) ∷ []

abbrev two_store : Store Msg
two_store = record {
  heap =
      write (write (λ _. none) 20 (some (node (msg id_a 1) 0 21))) 21
        (some (node (msg id_b 0) 20 0));
  head = 20;
}

two_store-IsQueue : IsQueue Exact two_store two
unfolding write
two_store-IsQueue = cons (ground arith) refl refl (cons (ground arith) refl refl nil)

pop_from_msgq-use_after_free_example :
    (pop_from_msgq 3 (pos 0) >>= λ p. free p >> pop_from_msgq 3 (pos 0)) two_store ≡ fault
pop_from_msgq-use_after_free_example =
    pop_from_msgq-use_after_free (pos 0) (pos 0) 3 two_store [] 21 (msg id_b 0) two_store-IsQueue
      (refl, tt) refl (refl, tt) (omega arith)
