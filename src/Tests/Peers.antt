-- ===== src/Tests/Peers.antt =====
-- The round robin over three connections, of which the second is down.
use client_shared_lib.Base.{ℕ, ◌<◌, ◌≡◌, refl, get_elem?, if◌then◌else◌, List, [], ◌∷◌, arith}
use client_shared_lib.Types.{Con}
use client_shared_lib.Peers.Fair.{count, state_up, assignments, live_from, assignments-fair}
use client_shared_lib.Mem.Returns.{Returns}
use client_shared_lib.Tests.Sample.{con}

abbrev table : List Con
table = con 0 1 ∷ con 1 0 ∷ con 2 1 ∷ []

-- from the third connection on: it, the first, and not the second
assignments-fair_example :
    Returns
      (λ chosen next.
        (next < 3)
        × ((i : ℕ) → i < 3 → count i chosen ≡ (if state_up (get_elem? table i) then 1 else 0)))
      (assignments 2 3 table 3 2)
unfolding live_from
assignments-fair_example = assignments-fair 3 table 3 2 refl (omega arith) (omega arith)
