-- ===== src/ThreadPool.antt =====
-- `threadPool` of mod_tcpclient/include/tpool.h. A worker shares only its queue and the flag `_end`
-- with the other threads, and moves a step at a time. `start` and `end` hold `_mtx` alone, so that
-- no task is pushed meanwhile; the pin of a thread to a cpu changes nothing here.
pub mod Join
pub mod Life
pub mod Lifecycle
use client_shared_lib.Base.{
  ℕ, zero, suc, ◌+◌, ◌*◌, ◌%◌, Bool, true, false, Option, none, some, List, [], ◌∷◌, ◌++◌, ◌==◌,
  ltb, length, set, get_elem?, if◌then◌else◌,
}
use client_shared_lib.Base.Int.{ℤ, negsuc}
use client_shared_lib.Mem.{Run, Cmd, ok, fault, out_of_fuel, pure, ◌>>=◌, ◌>>◌}
use client_shared_lib.TsQueue.{push_back, pop_front, size, empty}

-- A task of the client, or the one that `worker::end` pushes.
pub data Task (A : Type 0) : Type 0 where
  job : A → Task A
  nothing : Task A

-- Where the thread of a worker stands; `absent` is not joinable.
pub data Thread : Type 0 where
  absent : Thread
  looping : Thread  -- before the test of `endFlag`
  popping : Thread  -- in `pop_front` of the first loop
  draining : Thread  -- before the test of `_queue.empty()`
  taking : Thread  -- in `pop_front` of the second loop
  finished : Thread

-- `worker`, with the tasks that have been executed so far
pub record Worker (A : Type 0) : Type 0 where
  pub queue : List (Task A)
  pub thread : Thread
  pub affinity : ℤ
  pub ran : List (Task A)

-- `threadPool`
pub record Pool (A : Type 0) : Type 0 where
  pub thread_num : ℕ
  pub workers : List (Worker A)
  pub end_flag : Bool

pub data Thrown : Type 0 where
  invalid_argument : Thrown
  logic_error : Thrown

-- What a member function returns, or the exception that it throws.
pub data Result (A : Type 0) : Type 0 where
  value : A → Result A
  throws : Thrown → Result A

abbrev pub joinable : Thread → Bool
joinable absent = false
joinable _ = true

abbrev pub unpinned : ℕ → List ℤ
unpinned zero = []
unpinned (suc n) = negsuc 0 ∷ unpinned n

module _ {A : Type 0} where
  abbrev pub new_worker : Worker A
  new_worker = record { queue = []; thread = absent; affinity = negsuc 0; ran = [] }

  -- `task()` on the task that was taken, and the test that comes next
  abbrev pub executed : Worker A → Thread → Option (Task A × List (Task A)) → Option (Worker A)
  executed w next none = none
  executed w next (some (task, queue)) =
      some (record w { queue = queue; thread = next; ran = w.ran ++ task ∷ [] })

  -- A step of the thread, `none` where it does not move: it waits, has finished, or is absent.
  abbrev pub turn_at : Bool → Worker A → Thread → Option (Worker A)
  turn_at end_flag w absent = none
  turn_at end_flag w looping = some (record w { thread = if end_flag then draining else popping })
  turn_at end_flag w popping = executed w looping (pop_front w.queue)
  turn_at end_flag w draining =
      some (record w { thread = if empty w.queue then finished else taking })
  turn_at end_flag w taking = executed w draining (pop_front w.queue)
  turn_at end_flag w finished = none

  unfoldable pub turn : Bool → Worker A → Option (Worker A)
  unfolding pop_front
  turn end_flag w = turn_at end_flag w w.thread

  -- `worker::push`
  unfoldable pub worker_push : Task A → Worker A → Worker A
  unfolding push_back
  worker_push t w = record w { queue = push_back t w.queue }

  -- `_thread.join()`, on fuel: the caller waits until the thread has finished.
  unfoldable pub join : ℕ → Bool → Worker A → Run (Worker A) (Unit {0})
  unfolding turn
  join zero end_flag w = out_of_fuel
  join (suc k) end_flag w = elim (turn end_flag w) [
    | some w' ↦ join k end_flag w'
    | none ↦ joined w.thread w
  ]
    where
      joined : Thread → Cmd (Worker A) (Unit {0})
      joined finished w = ok tt (record w { thread = absent })
      joined _ w = out_of_fuel

  -- `worker::end`
  unfoldable pub worker_end : ℕ → Bool → Cmd (Worker A) (Unit {0})
  unfolding join worker_push
  worker_end k end_flag w =
      if joinable w.thread then join k end_flag (worker_push nothing w) else ok tt w

  -- `worker::start`
  unfoldable pub worker_start : ℕ → Bool → Cmd (Worker A) (Unit {0})
  unfolding worker_end
  worker_start k end_flag = worker_end k end_flag >> λ w. ok tt (record w { thread = looping })

  abbrev pub with_rest :
      Run (Worker A) (Unit {0})
      → Run (List (Worker A)) (Unit {0})
      → Run (List (Worker A)) (Unit {0})
  with_rest (ok a w) (ok b ws) = ok tt (w ∷ ws)
  with_rest (ok a w) fault = fault
  with_rest (ok a w) out_of_fuel = out_of_fuel
  with_rest fault rest = fault
  with_rest out_of_fuel rest = out_of_fuel

  -- the loop of `start`, on `_workers` from `i` on
  unfoldable pub start_loop : ℕ → List ℤ → Cmd (List (Worker A)) (Unit {0})
  unfolding worker_start
  start_loop k [] ws = ok tt ws
  start_loop k (a ∷ affinity) [] = fault
  start_loop k (a ∷ affinity) (w ∷ ws) =
      with_rest (worker_start k false (record w { affinity = a })) (start_loop k affinity ws)

  -- the loop of `end`
  unfoldable pub end_loop : ℕ → (thread_num : ℕ) → Cmd (List (Worker A)) (Unit {0})
  unfolding worker_end
  end_loop k zero ws = ok tt ws
  end_loop k (suc n) [] = fault
  end_loop k (suc n) (w ∷ ws) = with_rest (worker_end k true w) (end_loop k n ws)

  abbrev pub put_workers :
      (thread_num : ℕ)
      → (end_flag : Bool) → Run (List (Worker A)) (Unit {0})
      → Run (Pool A) (Result (Unit {0}))
  put_workers n flag (ok a ws) =
      ok (value tt) (record { thread_num = n; workers = ws; end_flag = flag })
  put_workers n flag fault = fault
  put_workers n flag out_of_fuel = out_of_fuel

  -- `start(const std::vector<int>&)`, for `maxNumThreads`
  unfoldable pub start : (max k : ℕ) → List ℤ → Cmd (Pool A) (Result (Unit {0}))
  unfolding start_loop
  start max k affinity p =
      if size affinity == 0
      then ok (throws invalid_argument) p
      else (if ltb max (size affinity)
          then ok (throws invalid_argument) p
          else put_workers (size affinity) false (start_loop k affinity p.workers))

  -- `start(size_t)`
  unfoldable pub start_num : (max k : ℕ) → ℕ → Cmd (Pool A) (Result (Unit {0}))
  unfolding start
  start_num max k num p =
      if num == 0 then ok (throws invalid_argument) p else start max k (unpinned num) p

  -- `end`
  unfoldable pub end : ℕ → Cmd (Pool A) (Result (Unit {0}))
  unfolding end_loop
  end k p = put_workers 0 true (end_loop k p.thread_num p.workers)

  abbrev pub push_at : ℕ → Task A → Option (Worker A) → Cmd (Pool A) (Result (Unit {0}))
  push_at i t none p = fault
  push_at i t (some w) p =
      ok (value tt) (record p { workers = set (p.workers) i (worker_push t w) })

  -- `push(task_t&&, uint32_t)`; `push(task_t&&)` draws the hash at random.
  unfoldable pub push : Task A → (hash : ℕ) → Cmd (Pool A) (Result (Unit {0}))
  push t hash p =
      if p.thread_num == 0
      then ok (throws logic_error) p
      else push_at (hash % p.thread_num) t (get_elem? p.workers (hash % p.thread_num)) p
