-- ===== src/Startup/Threads.antt =====
-- The library after it has started: its configuration, its connections, and its threads.
use client_shared_lib.Base.{
  ℕ, zero, suc, ◌+◌, ◌*◌, ◌≡◌, refl, ap, inl, inr, false, Option, none, List, [], ◌∷◌, ◌++◌,
  append_assoc, arith, length, length-append, get_elem?-append, set-append, Bool-cases,
}
use client_shared_lib.Base.Int.{ℤ, pos, ◌==ℤ◌}
use client_shared_lib.Mem.{ok}
use client_shared_lib.Mem.Returns
use client_shared_lib.Mem.Returns.{Returns, returns}
use client_shared_lib.Connect.{EndPeer, Attempt, is_negative}
use client_shared_lib.Connect.Table.{AllFit, table, trace, create_peers-table}
use client_shared_lib.Startup.{
  Configurator, Thread, queue_manager, Library, slots, copy_loop, manage, mod_init,
}
use client_shared_lib.Startup.Creation.{
  workers, created, all_created, Spawned, Spawned-cons, Spawned-fails, worker_loop-Spawned,
}

-- the loop copies what is there
copy_loop-copies :
    (done rest : List EndPeer) (garbage : EndPeer)
    → copy_loop (length rest) (length done) (done ++ rest) (done ++ slots (length rest) garbage)
      ≡ ok tt (done ++ rest)
unfolding copy_loop
copy_loop-copies done [] garbage = refl
copy_loop-copies done (p ∷ rest) garbage =
    rw
      (
        get_elem?-append done p rest,
        get_elem?-append done garbage (slots (length rest) garbage),
        set-append done garbage p (slots (length rest) garbage),
      )
      (let step : length done + 1 ≡ suc (length done) = omega arith in
        rw
          (
            append_assoc done (p ∷ []) rest,
            append_assoc done (p ∷ []) (slots (length rest) garbage),
            length-append done (p ∷ []),
            step,
          )
          at (copy_loop-copies (done ++ p ∷ []) rest garbage))

length-slots : {A : Type 0} (n : ℕ) (a : A) → length (slots n a) ≡ n
length-slots zero a = refl
length-slots (suc n) a = ap suc (length-slots n a)

module _ (rc : ℕ → ℤ) (attempt : ℕ → Attempt) where
  manage-Spawned :
      (s : Library)
      → AllFit s.gconfig.peers
      → ((j : ℕ) → is_negative (attempt j).sock ≡ false)
      → Returns
          (Spawned rc (queue_manager ∷ workers s.gconfig.num_peers 0) 0 (record s {
            net = record {
              conns = table 0 s.gconfig.peers attempt;
              calls = s.net.calls ++ trace 0 s.gconfig.peers attempt;
            };
          }))
          (manage rc attempt s)
  unfolding manage
  manage-Spawned s fit opened =
      rw (create_peers-table s.gconfig.peers attempt s.net.calls fit opened)
        (elim (Bool-cases (rc 0 ==ℤ pos 0)) [
          | inr bad ↦ rw bad (returns (Spawned-fails rc bad refl refl refl))
          | inl good ↦
              let s1 : Library = record s {
                net = record {
                  conns = table 0 s.gconfig.peers attempt;
                  calls = s.net.calls ++ trace 0 s.gconfig.peers attempt;
                };
                threads = s.threads ++ queue_manager ∷ [];
                worker_t = slots (s.gconfig.num_peers * 2) none;
              } in
              rw good (
                Returns.mono
                  (worker_loop-Spawned rc s.gconfig.num_peers 0 1 0 s1 (
                    omega (arith, length-slots {A = Option Thread} (s.gconfig.num_peers * 2) none)))
                  λ r t rest. Spawned-cons rc {s' = s1} good refl refl refl rest)
        ])

  -- If the number of peers is right, every port has at most four digits and every socket is
  -- created, mod_init returns or ends the program, and never writes past a table: the library has
  -- its own copy of the peers, the connections are those of create_peers, and the threads are the
  -- first of the queue manager and a receiver and a sender for each peer in turn, up to the first
  -- that the kernel does not create; the program ends exactly if there is one.
  pub mod_init-threads :
      (garbage : EndPeer) (cfg : Configurator) (s : Library)
      → cfg.num_peers ≡ length cfg.peers
      → AllFit cfg.peers
      → ((j : ℕ) → is_negative (attempt j).sock ≡ false)
      → Returns
          (λ good t.
            (t.gconfig.peers ≡ cfg.peers)
            × (t.gconfig.num_peers ≡ cfg.num_peers)
            × (t.net.conns ≡ table 0 cfg.peers attempt)
            × (t.threads ≡ s.threads ++ created rc 0 (queue_manager ∷ workers cfg.num_peers 0))
            × (good ≡ all_created rc 0 (queue_manager ∷ workers cfg.num_peers 0)))
          (mod_init rc garbage cfg attempt s)
  unfolding mod_init
  mod_init-threads garbage cfg s size fit opened =
      rw (size, copy_loop-copies [] (cfg.peers) garbage)
        (Returns.mono
          (manage-Spawned (record s { gconfig = record cfg { num_peers = length cfg.peers } }) fit
            opened)
          λ r t done. (
            ap (λ c. c.peers) done.gconfig,
            ap (λ c. c.num_peers) done.gconfig,
            ap (λ n. n.conns) done.net,
            done.threads,
            done.result,
          ))
