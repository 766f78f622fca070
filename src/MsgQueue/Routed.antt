-- ===== src/MsgQueue/Routed.antt =====
-- What every operation on the message queue keeps: each message is for one of the peers.
use client_shared_lib.Base.{ℕ, ◌<◌, ◌≡◌, [], ◌∷◌, ◌++◌}
use client_shared_lib.Base.Int.{pos}
use client_shared_lib.Mem.{Ptr}
use client_shared_lib.Mem.Seg.{Cells}
use client_shared_lib.Types.{Msg}

-- Each message is for one of the `n` peers, whose sender can take it.
abbrev pub AllRouted : ℕ → Cells Msg → Type 0
AllRouted n [] = Unit {0}
AllRouted n ((p, m) ∷ ms) = ((c : ℕ) × (m.conn ≡ pos c) × (c < n)) × AllRouted n ms

pub append-AllRouted :
    (n : ℕ) (ms : Cells Msg) (p : Ptr) (m : Msg) (c : ℕ)
    → AllRouted n ms
    → m.conn ≡ pos c
    → c < n
    → AllRouted n (ms ++ (p, m) ∷ [])
append-AllRouted n [] p m c all e h = ((c, e, h), tt)
append-AllRouted n (x ∷ ms) p m c (first, all) e h = (first, append-AllRouted n ms p m c all e h)

pub without-AllRouted :
    (n : ℕ) (pre : Cells Msg) (x : Ptr × Msg) (post : Cells Msg)
    → AllRouted n (pre ++ x ∷ post)
    → AllRouted n (pre ++ post)
without-AllRouted n [] x post (first, all) = all
without-AllRouted n (y ∷ pre) x post (first, all) = (first, without-AllRouted n pre x post all)
