-- ===== src/Tests/Connect.antt =====
-- Connections to two peers.
use client_shared_lib.Base.{
  ℕ, zero, suc, false, ◌≡◌, ◌≢◌, refl, true, List, [], ◌∷◌, ◌++◌, arith, get_elem?,
}
use client_shared_lib.Base.Int.{pos, negsuc}
use client_shared_lib.Mem.{ok, out_of_fuel}
use client_shared_lib.Mem.Returns.{Returns}
use client_shared_lib.Peers.RoundRobin.{IsUp}
use client_shared_lib.Connect.{
  EndPeer, Net, Attempt, Dial, Health, blank_con, is_negative, create_peers, reconnect,
  monitor_sock_conn,
}
use client_shared_lib.Connect.Table.{table, trace, create_peers-table}
use client_shared_lib.Connect.Repair.{reconnect-spins, reconnect-IsUp, now, later}
use client_shared_lib.Connect.Monitor.{
  watched, watch_calls, served, none_left, monitor_sock_conn-watched,
}
use client_shared_lib.Tests.Sample.{con}

abbrev pub peers : List EndPeer
peers = record { port = 7878; ip = b'A' ∷ [] } ∷ record { port = 7676; ip = b'B' ∷ [] } ∷ []

-- The first connection comes up at once; the others fail twice.
abbrev attempt : ℕ → Attempt
attempt zero = record { sock = pos 5; first = pos 0; second = pos 0 }
attempt (suc i) = record { sock = pos 6; first = negsuc 0; second = negsuc 0 }

attempt-sock : (j : ℕ) → is_negative (attempt j).sock ≡ false
attempt-sock zero = refl
attempt-sock (suc j) = refl

create_peers-table_example :
    create_peers peers attempt []
    ≡ ok true (record { conns = table 0 peers attempt; calls = [] ++ trace 0 peers attempt })
create_peers-table_example = create_peers-table peers attempt [] (refl, (refl, tt)) attempt-sock

abbrev net : Net
net = record { conns = con 0 1 ∷ blank_con ∷ []; calls = [] }

abbrev refused : Dial
refused = record { sock = pos 7; rc = negsuc 0 }

abbrev pub accepted : Dial
accepted = record { sock = pos 8; rc = pos 0 }

reconnect-spins_example : reconnect 1 peers (refused ∷ accepted ∷ []) net ≡ out_of_fuel
reconnect-spins_example =
    reconnect-spins 1 peers (refused ∷ accepted ∷ []) net refl refl (omega arith) refl refl

abbrev one_down : Net
one_down = record { conns = con 0 1 ∷ con 1 0 ∷ []; calls = [] }

reconnect-IsUp_example :
    Returns
      (λ _ t. IsUp t.conns 1 × ((j : ℕ) → j ≢ 1 → get_elem? t.conns j ≡ get_elem? one_down.conns j))
      (reconnect 1 peers (refused ∷ accepted ∷ []) one_down)
reconnect-IsUp_example =
    reconnect-IsUp 1 peers (refused ∷ accepted ∷ []) one_down refl refl refl refl
      (later refl (now refl))

-- the second connection has an error
abbrev health : ℕ → Health
health zero = record { rc = pos 0; err = pos 0; again = accepted }
health (suc i) = record { rc = pos 0; err = pos 104; again = accepted }

monitor_sock_conn-watched_example :
    monitor_sock_conn peers health one_down
    ≡ ok tt (record {
      conns = watched 0 (one_down.conns) health;
      calls = [] ++ watch_calls 0 (one_down.conns) health;
    })
monitor_sock_conn-watched_example =
    monitor_sock_conn-watched health one_down (served refl (served refl none_left))
