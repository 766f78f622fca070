-- ===== src/Tests/Startup.antt =====
-- Two peers; the sender of the second cannot be created.
use client_shared_lib.Base.{ℕ, ◌≡◌, refl, ◌==◌, false, [], ◌∷◌, if◌then◌else◌}
use client_shared_lib.Base.Int.{ℤ, pos}
use client_shared_lib.Mem.Returns.{Returns}
use client_shared_lib.Connect.{EndPeer, Attempt}
use client_shared_lib.Connect.Table.{table}
use client_shared_lib.Startup.{Configurator, queue_manager, receiver, sender, Library, mod_init}
use client_shared_lib.Startup.Creation.{created, all_created}
use client_shared_lib.Startup.Threads.{mod_init-threads}

abbrev peer : ℕ → EndPeer
peer p = record { ip = b'a' ∷ []; port = p }

abbrev cfg : Configurator
cfg = record { num_worker_threads = 4; num_peers = 2; peers = peer 80 ∷ peer 81 ∷ [] }

abbrev library : Library
library = record {
  gconfig = record { num_worker_threads = 0; num_peers = 0; peers = [] };
  net = record { conns = []; calls = [] };
  threads = [];
  worker_t = [];
}

-- the fifth thread fails
abbrev rc : ℕ → ℤ
rc k = if k == 4 then pos 11 else pos 0

abbrev attempt : ℕ → Attempt
attempt i = record { sock = pos 7; first = pos 0; second = pos 0 }

mod_init-threads_example :
    Returns
      (λ good t.
        (t.gconfig.peers ≡ cfg.peers)
        × (t.gconfig.num_peers ≡ 2)
        × (t.net.conns ≡ table 0 cfg.peers attempt)
        × (t.threads ≡ queue_manager ∷ receiver 0 ∷ sender 0 ∷ receiver 1 ∷ [])
        × (good ≡ false))
      (mod_init rc (peer 0) cfg attempt library)
unfolding created all_created
mod_init-threads_example =
    mod_init-threads rc attempt (peer 0) cfg library refl (refl, (refl, tt)) (λ j. refl)
