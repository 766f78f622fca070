-- ===== src/Tests/Pool.antt =====
-- A pool with two workers, and two queues.
use client_shared_lib.Base.{
  ℕ, ◌<◌, ◌≡◌, refl, inl, inr, false, some, [], ◌∷◌, ◌++◌, arith, get_elem?,
}
use client_shared_lib.Base.Int.{negsuc}
use client_shared_lib.Mem.{◌>>◌}
use client_shared_lib.Mem.Returns.{Returns}
use client_shared_lib.TsQueue.{Pair, push_back, pop_front}
use client_shared_lib.ThreadPool.{job, looping, popping, Worker, Pool, turn, worker_push, push, end}
use client_shared_lib.ThreadPool.Join.{Ended, worker}
use client_shared_lib.ThreadPool.Life.{Life, born, pushed, moved, started, Life-in_order}
use client_shared_lib.ThreadPool.Lifecycle.{AllRunning, none_runs, one_runs, push-end}

abbrev pair : Pair ℕ
pair = record { this = 1 ∷ []; other = 2 ∷ 3 ∷ []; held = [] }

-- The first worker waits for tasks; the second has one, and is about to take it.
abbrev pool : Pool ℕ
pool = record {
  thread_num = 2;
  workers =
      worker [] popping (negsuc 0) (job 1 ∷ []) ∷ worker (job 2 ∷ []) looping (negsuc 0) [] ∷ [];
  end_flag = false;
}

pool-AllRunning : AllRunning 1 2 pool.workers
pool-AllRunning = one_runs (inr refl) (omega arith) (one_runs (inl refl) (omega arith) none_runs)

push-end_example :
    Returns
      (λ r p'.
        (i : ℕ) × (w : Worker ℕ) × (w' : Worker ℕ) × (i < 2)
        × (get_elem? pool.workers i ≡ some w)
        × (get_elem? p'.workers i ≡ some w')
        × Ended (worker_push (job 3) w) w')
      ((push (job 3) 7 >> end 10) pool)
push-end_example = push-end 1 10 (job 3) 7 pool (omega arith) pool-AllRunning (omega arith)

-- A worker that has been started, given two tasks, and has executed one.
abbrev busy : Worker ℕ
busy = worker (job 5 ∷ []) looping (negsuc 0) (job 4 ∷ [])

busy-Life : Life (job 4 ∷ job 5 ∷ []) busy
unfolding turn worker_push push_back pop_front
busy-Life =
    moved false (moved false (pushed (job 5) (pushed (job 4) (started (negsuc 0) born refl))) refl)
      refl

Life-in_order_example : busy.ran ++ busy.queue ≡ job 4 ∷ job 5 ∷ []
Life-in_order_example = Life-in_order busy-Life
