-- ===== src/Tests/Wakeup.antt =====
-- Two senders, and a message for each.
use client_shared_lib.Base.{◌≡◌, [], ◌∷◌, arith}
use client_shared_lib.Wakeup.{Threads, Reach, init}
use client_shared_lib.Wakeup.Stall.{spurious, IsStalled, Reach-stalls}

Reach-stalls_example :
    (s : Threads) × Reach 2 init s
    × (s.queue ≡ 0 ∷ 1 ∷ [])
    × (s.looking ≡ 0)
    × IsStalled 2 s
    × ((t : Threads) → (r : Reach 2 s t) → spurious r ≡ 0 → IsStalled 2 t)
Reach-stalls_example = Reach-stalls 2 0 1 [] (omega arith, (omega arith, tt))
