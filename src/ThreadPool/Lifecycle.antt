-- ===== src/ThreadPool/Lifecycle.antt =====
-- The pool from `start` to `end`.
use client_shared_lib.Base.{
  ℕ, zero, suc, ◌+◌, ◌*◌, ◌%◌, ◌<◌, ◌≤◌, ◌≡◌, refl, ◌⊎◌, inl, inr, Bool, true, false, some, List,
  [], ◌∷◌, ◌++◌, arith, ◌==◌, ltb, length, length-append, set, set-same, get_elem?,
}
use client_shared_lib.Base.Int.{ℤ}
use client_shared_lib.Mem.{Run, out_of_fuel, ◌>>◌}
use client_shared_lib.Mem.Returns
use client_shared_lib.Mem.Returns.{Returns, returns}
use client_shared_lib.TsQueue.{push_back}
use client_shared_lib.ThreadPool.{
  Task, nothing, Thread, looping, popping, Worker, Pool, value, worker_push, worker_end,
  worker_start, with_rest, put_workers, start_loop, end_loop, start, end, push,
}
use client_shared_lib.ThreadPool.Join.{worker, IsLive, Ended, worker_end-Ended, join-waits}

module _ {A : Type 0} where
  -- The first `n` workers have threads, and `k` is enough for each to end.
  pub data AllLive (k : ℕ) : ℕ → List (Worker A) → Type 0 where
    no_more : {ws : List (Worker A)} → AllLive k 0 ws
    one_more :
        {n : ℕ} {w : Worker A} {ws : List (Worker A)}
        → IsLive w
        → 2 * length w.queue + 6 ≤ k
        → AllLive k n ws
        → AllLive k (suc n) (w ∷ ws)

  -- The first `n` workers have come to their end, and the others are as they were.
  pub data AllEnded : ℕ → List (Worker A) → List (Worker A) → Type 0 where
    none_ended : {ws : List (Worker A)} → AllEnded 0 ws ws
    one_ended :
        {n : ℕ} {w w' : Worker A} {ws ws' : List (Worker A)}
        → Ended w w'
        → AllEnded n ws ws'
        → AllEnded (suc n) (w ∷ ws) (w' ∷ ws')

  with_rest-AllEnded :
      {n : ℕ} {w : Worker A} {ws : List (Worker A)} {r : Run (Worker A) (Unit {0})}
      {rest : Run (List (Worker A)) (Unit {0})}
      → Returns (λ _ w'. Ended w w') r
      → Returns (λ _ ws'. AllEnded n ws ws') rest
      → Returns (λ _ ws'. AllEnded (suc n) (w ∷ ws) ws') (with_rest r rest)
  with_rest-AllEnded (returns e) (returns all) = returns (one_ended e all)

  end_loop-AllEnded :
      (k : ℕ) {n : ℕ} {ws : List (Worker A)}
      → AllLive k n ws
      → Returns (λ _ ws'. AllEnded n ws ws') (end_loop k n ws)
  unfolding end_loop
  end_loop-AllEnded k no_more = returns none_ended
  end_loop-AllEnded k (one_more {w} live fuel more) =
      with_rest-AllEnded (worker_end-Ended k w.queue w.thread w.affinity w.ran live fuel)
        (end_loop-AllEnded k more)

  put_workers-Returns :
      {P : List (Worker A) → Type 0} {r : Run (List (Worker A)) (Unit {0})} (n : ℕ) (flag : Bool)
      → Returns (λ _ ws. P ws) r
      → Returns
          (λ v p. (v ≡ value tt) × (p.thread_num ≡ n) × (p.end_flag ≡ flag) × P p.workers)
          (put_workers n flag r)
  put_workers-Returns n flag (returns p) = returns (refl, refl, refl, p)

  -- Ending returns, and every worker has then executed its queue and stopped.
  pub end-AllEnded :
      (k : ℕ) (p : Pool A)
      → AllLive k p.thread_num p.workers
      → Returns
          (λ r p'.
            (r ≡ value tt)
            × (p'.thread_num ≡ 0)
            × (p'.end_flag ≡ true)
            × AllEnded p.thread_num p.workers p'.workers)
          (end k p)
  unfolding end
  end-AllEnded k p live = put_workers-Returns 0 true (end_loop-AllEnded k live)

  -- The thread is in its first loop.
  abbrev pub IsRunning : Worker A → Type 0
  IsRunning w = (w.thread ≡ looping) ⊎ (w.thread ≡ popping)

  worker_start-waits :
      (k : ℕ) (q : List (Task A)) (th : Thread) (a : ℤ) (r : List (Task A))
      → IsRunning (worker q th a r)
      → worker_start k false (worker q th a r) ≡ out_of_fuel
  unfolding worker_start worker_end worker_push push_back
  worker_start-waits k q th a r (inl e) = rw (e, (join-waits k (q ++ nothing ∷ []) a r).0)
  worker_start-waits k q th a r (inr e) = rw (e, (join-waits k (q ++ nothing ∷ []) a r).1)

  -- Starting a pool whose first worker runs does not return, whatever the fuel, if the number of
  -- threads asked for is between 1 and the maximum.
  pub start-waits :
      (max k : ℕ) (a : ℤ) (affinity : List ℤ) (p : Pool A) (w : Worker A) (ws : List (Worker A))
      → suc (length affinity) ≤ max
      → p.workers ≡ w ∷ ws
      → IsRunning w
      → start max k (a ∷ affinity) p ≡ out_of_fuel
  unfolding start start_loop
  start-waits max k a affinity p w ws small first running =
      let some_thread : (suc (length affinity) == 0) ≡ false = ground arith in
      let fits : ltb max (suc (length affinity)) ≡ false = ground arith in
      rw (some_thread, fits, first, worker_start-waits k w.queue w.thread a w.ran running)

  -- the first `n` workers are in their first loops, with at most `m` tasks each
  pub data AllRunning (m : ℕ) : ℕ → List (Worker A) → Type 0 where
    none_runs : {ws : List (Worker A)} → AllRunning m 0 ws
    one_runs :
        {n : ℕ} {w : Worker A} {ws : List (Worker A)}
        → IsRunning w
        → length w.queue ≤ m
        → AllRunning m n ws
        → AllRunning m (suc n) (w ∷ ws)

  running-IsLive : (w : Worker A) → IsRunning w → IsLive w
  running-IsLive w (inl e) = record { there = λ x. cc; empty_at_end = λ x. cc }
  running-IsLive w (inr e) = record { there = λ x. cc; empty_at_end = λ x. cc }

  AllRunning-AllLive :
      {m k n : ℕ} {ws : List (Worker A)} → 2 * m + 8 ≤ k → AllRunning m n ws → AllLive k n ws
  AllRunning-AllLive fuel none_runs = no_more
  AllRunning-AllLive fuel (one_runs {w} r few more) =
      one_more (running-IsLive w r) (omega arith) (AllRunning-AllLive fuel more)

  -- one of them, by its number
  AllRunning-at :
      {m n : ℕ} {ws : List (Worker A)} (i : ℕ)
      → i < n
      → AllRunning m n ws
      → (w : Worker A) × (get_elem? ws i ≡ some w)
  AllRunning-at i h none_runs = absurd (omega arith)
  AllRunning-at zero h (one_runs {w} r few more) = (w, refl)
  AllRunning-at (suc i) h (one_runs r few more) = AllRunning-at i (omega arith) more

  push-AllLive :
      {m k n : ℕ} {ws : List (Worker A)} (t : Task A) (i : ℕ) {w : Worker A}
      → 2 * m + 8 ≤ k
      → get_elem? ws i ≡ some w
      → AllRunning m n ws
      → AllLive k n (set ws i (worker_push t w))
  unfolding worker_push push_back
  push-AllLive t i fuel at none_runs = no_more
  push-AllLive t zero {w} fuel at (one_runs {w = v} r few more) =
      let same : w ≡ v = cc in
      rw same (
        one_more (running-IsLive (worker_push t v) r)
          (omega (arith, length-append v.queue (t ∷ []))) (AllRunning-AllLive fuel more))
  push-AllLive t (suc i) fuel at (one_runs {w = v} r few more) =
      one_more (running-IsLive v r) (omega arith) (push-AllLive t i fuel at more)

  AllEnded-at :
      {n : ℕ} {ws ws' : List (Worker A)} (i : ℕ) {w : Worker A}
      → i < n
      → get_elem? ws i ≡ some w
      → AllEnded n ws ws'
      → (w' : Worker A) × (get_elem? ws' i ≡ some w') × Ended w w'
  AllEnded-at i h at none_ended = absurd (omega arith)
  AllEnded-at zero {w} h at (one_ended {w = v} {w' = v'} e more) =
      let same : w ≡ v = cc in rw same (v', refl, e)
  AllEnded-at (suc i) h at (one_ended e more) = AllEnded-at i (omega arith) at more

  -- If a pool has workers, each of them runs and has at most m tasks, then pushing a task and
  -- ending the pool returns with fuel of 2 * m + 8: the hash picks one of the workers, and that
  -- worker has executed the tasks of its queue and the pushed one, in order, and has stopped.
  pub push-end :
      (m k : ℕ) (t : Task A) (hash : ℕ) (p : Pool A)
      → 0 < p.thread_num
      → AllRunning m p.thread_num p.workers
      → 2 * m + 8 ≤ k
      → Returns
          (λ r p'.
            (i : ℕ) × (w : Worker A) × (w' : Worker A) × (i < p.thread_num)
            × (get_elem? p.workers i ≡ some w)
            × (get_elem? p'.workers i ≡ some w')
            × Ended (worker_push t w) w')
          ((push t hash >> end k) p)
  unfolding push
  push-end m k t hash p some_thread running fuel =
      let i = hash % p.thread_num in
      let inside : i < p.thread_num = grind arith in
      let (w, at) = AllRunning-at i inside running in
      let z : (p.thread_num == 0) ≡ false = ground arith in
      rw (z, at)
        (Returns.mono
          (end-AllEnded k (record p { workers = set (p.workers) i (worker_push t w) })
            (push-AllLive t i fuel at running))
          λ r p' (_, _, _, all).
            let (w', at', ended) =
              AllEnded-at i inside (set-same (p.workers) i (worker_push t w) at) all in
            (i, w, w', inside, at, at', ended))
