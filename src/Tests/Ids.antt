-- ===== src/Tests/Ids.antt =====
-- The transaction queue.
use client_shared_lib.Base.{ℕ, zero, suc, ◌<◌, str_eq, ◌≡◌, refl, some, [], ◌∷◌, arith}
use client_shared_lib.Mem.{out_of_fuel}
use client_shared_lib.Mem.Returns.{Returns}
use client_shared_lib.Mem.Seg.{IsQueue, Loose, SameOutside}
use client_shared_lib.Types.{Globals}
use client_shared_lib.IdQueue.{rem_id, add_entry}
use client_shared_lib.IdQueue.Entries.{find, refresh, erase}
use client_shared_lib.IdQueue.Remove.{Freed, rem_id-erase}
use client_shared_lib.IdQueue.Add.{add_entry-spins}
use client_shared_lib.Peers.RoundRobin.{IsDown}
use client_shared_lib.Tests.Sample.{
  id_a, id_b, id_c, time, entry_a, ids, id_store, id_store-IsQueue, globals, con,
}

rem_id-erase_example :
    Returns
      (λ _ t.
        IsQueue Loose t (erase id_b ids)
        × SameOutside ids id_store.heap t.heap
        × Freed ids (erase id_b ids) t.heap)
      (rem_id 3 id_b id_store)
rem_id-erase_example = rem_id-erase id_b 3 id_store id_store-IsQueue (omega arith)

abbrev all_down : Globals
all_down = record globals { conns = con 0 0 ∷ con 1 0 ∷ [] }

conns-IsDown : (i : ℕ) → i < 2 → IsDown all_down.conns i
conns-IsDown zero h = (con 0 0, refl, omega arith)
conns-IsDown (suc zero) h = (con 1 0, refl, omega arith)
conns-IsDown (suc (suc i)) h = absurd (omega arith)

add_entry-spins_example : add_entry 3 100 12 (time 125) id_c 80 81 all_down ≡ out_of_fuel
add_entry-spins_example =
    add_entry-spins 3 100 12 (time 125) id_c 80 81 all_down refl refl (omega arith) conns-IsDown

-- An expired entry that is used again stays marked as expired.
refresh_keeps_mark :
    find id_a (refresh (time 200) id_a 80 81 ids)
    ≡ some (record entry_a {
      a_time = time 200;
      e_time = time 230;
      callback_f = 80;
      callback_param = 81;
    })
unfolding find refresh str_eq
refresh_keeps_mark = refl
