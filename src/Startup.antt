-- ===== src/Startup.antt =====
-- Starting the library: `mod_init` of mod_tcpclient/src/module.c, which copies the configuration, and
-- `manage` of src/work.c, which opens the connections and creates the threads. What the kernel
-- returns is given; the sleeps in between are left out.
pub mod Creation
pub mod Threads
use client_shared_lib.Base.{
  ℕ, zero, suc, ◌+◌, ◌*◌, Bool, true, false, Option, none, some, List, [], ◌∷◌, ◌++◌, ◌==◌,
  get_elem?, set, if◌then◌else◌,
}
use client_shared_lib.Base.Int.{ℤ, pos, ◌==ℤ◌}
use client_shared_lib.Mem.{Run, Cmd, ok, fault, out_of_fuel, pure, ◌>>=◌, ◌>>◌}
use client_shared_lib.Connect.{EndPeer, Net, Call, Attempt, create_peers}

-- `configurator`
pub record Configurator : Type 0 where
  pub num_worker_threads : ℕ
  pub num_peers : ℕ
  pub peers : List EndPeer

-- What a thread runs: `qmanager_thread`, or one of the two workers of a peer.
pub data Thread : Type 0 where
  queue_manager : Thread
  receiver : ℕ → Thread
  sender : ℕ → Thread

-- `gconfig`, `gconn_list`, the threads that have been created, and `worker_t`
pub record Library : Type 0 where
  pub gconfig : Configurator
  pub net : Net
  pub threads : List Thread
  pub worker_t : List (Option Thread)

module _ {A : Type 0} where
  abbrev pub slots : ℕ → A → List A
  slots zero a = []
  slots (suc n) a = a ∷ slots n a

  -- `array[i] = a`, a fault past the end
  abbrev pub put_at : Option A → ℕ → A → Cmd (List A) (Unit {0})
  put_at none i a xs = fault
  put_at (some old) i a xs = ok tt (set xs i a)

  abbrev pub put_slot : ℕ → A → Cmd (List A) (Unit {0})
  put_slot i a xs = put_at (get_elem? xs i) i a xs

abbrev pub put_copy : Option EndPeer → ℕ → Cmd (List EndPeer) (Unit {0})
put_copy none i = λ _. fault
put_copy (some p) i = put_slot i p

-- the loop of `mod_init`: the fields of `cfg.peers[i]` are copied, for `n` more peers
unfoldable pub copy_loop : ℕ → ℕ → List EndPeer → Cmd (List EndPeer) (Unit {0})
copy_loop zero i peers = pure tt
copy_loop (suc n) i peers = put_copy (get_elem? peers i) i >> copy_loop n (suc i) peers

abbrev pub put_workers : Library → Run (List (Option Thread)) (Unit {0}) → Run Library (Unit {0})
put_workers s (ok a w) = ok a (record s { worker_t = w })
put_workers s fault = fault
put_workers s out_of_fuel = out_of_fuel

module _ (rc : ℕ → ℤ) where
  -- the `k`-th call of `pthread_create`; false: it has failed, and the program exits.
  abbrev pub spawn : ℕ → Thread → Cmd Library Bool
  spawn k t s =
      if rc k ==ℤ pos 0 then ok true (record s { threads = s.threads ++ t ∷ [] }) else ok false s

  -- the same, with its result in `worker_t[j]`
  abbrev pub spawn_worker : ℕ → ℕ → Thread → Cmd Library Bool
  spawn_worker k j t = (λ s. put_workers s (put_slot j (some t) s.worker_t)) >> spawn k t

  -- the loop of `manage` from the peer `i` on, for `n` more peers
  unfoldable pub worker_loop : (n i k j : ℕ) → Cmd Library Bool
  worker_loop zero i k j = pure true
  worker_loop (suc n) i k j = do
    received ← spawn_worker k j (receiver i)
    if received
        then (do
          sent ← spawn_worker (k + 1) (j + 1) (sender i)
          if sent then worker_loop n (suc i) (k + 2) (j + 2) else pure false)
        else pure false

  abbrev pub put_net : Library → Run Net Bool → Run Library Bool
  put_net s (ok a n) = ok a (record s { net = n })
  put_net s fault = fault
  put_net s out_of_fuel = out_of_fuel

  -- false: the program has exited.
  unfoldable pub manage : (ℕ → Attempt) → Cmd Library Bool
  unfolding worker_loop
  manage attempt = do
    connected ← (λ s. put_net s (create_peers s.gconfig.peers attempt s.net.calls))
    if connected
        then (do
          managed ← spawn 0 queue_manager
          if managed
              then (do
                (λ s. ok tt (record s { worker_t = slots (s.gconfig.num_peers * 2) none }))
                (λ s. worker_loop s.gconfig.num_peers 0 1 0 s))
              else pure false)
        else pure false

  abbrev pub put_peers :
      Library → Configurator → Run (List EndPeer) (Unit {0}) → Run Library (Unit {0})
  put_peers s cfg (ok a ps) = ok a (record s { gconfig = record cfg { peers = ps } })
  put_peers s cfg fault = fault
  put_peers s cfg out_of_fuel = out_of_fuel

  -- `garbage` is what `malloc` leaves in the table.
  unfoldable pub mod_init : EndPeer → Configurator → (ℕ → Attempt) → Cmd Library Bool
  unfolding copy_loop manage
  mod_init garbage cfg attempt =
      (λ s. put_peers s cfg (copy_loop cfg.num_peers 0 cfg.peers (slots cfg.num_peers garbage)))
      >> manage attempt
