-- ===== src/WorkQueue.antt =====
-- The work queue of mod_tcpclient/withlibev/src/workev.c. What a function does under `jobs_mutex` is
-- one step; a signal changes no memory.
pub mod Init
pub mod Jobs
pub mod Shutdown
use client_shared_lib.Base.{ℕ, zero, suc, Bool, true, false, ◌==◌, if◌then◌else◌}
use client_shared_lib.Base.Int.{ℤ, pos, negsuc, ◌==ℤ◌}
use client_shared_lib.Mem.{
  Ptr, null, Store, Run, Cmd, ok, fault, out_of_fuel, pure, ◌>>=◌, ◌>>◌, load, set_next, set_prev,
  set_item, get_head, set_head, alloc, free,
}

-- `job_t` without its links
pub record Job : Type 0 where
  pub job_function : Ptr
  pub user_data : Ptr

-- `worker_t` without its links, its thread and the address of the queue
pub record Worker : Type 0 where
  pub terminate : Bool

-- `workqueue_t`
pub record WorkState : Type 0 where
  pub workers : Store Worker
  pub waiting_jobs : Store Job

module _ {A : Type 0} where
  -- `LL_ADD`: the `prev` of the old head is left as it is.
  unfoldable pub ll_add : Ptr → Cmd (Store A) (Unit {0})
  ll_add item = do set_prev item null; list ← get_head; set_next item list; set_head item

  -- `LL_REMOVE`
  unfoldable pub ll_remove : Ptr → Cmd (Store A) (Unit {0})
  ll_remove item = do
    n ← load item
    (if n.prev == null then pure tt else set_next n.prev n.next)
    n' ← load item
    (if n'.next == null then pure tt else set_prev n'.next n'.prev)
    list ← get_head
    n'' ← load item
    (if list == item then set_head n''.next else pure tt)
    set_next item null
    set_prev item null

unfoldable pub workqueue_add_job : Ptr → Cmd (Store Job) (Unit {0})
workqueue_add_job job = ll_add job

-- One turn of `worker_function`: it waits for a signal, ends, or has a job to execute.
pub data Turn : Type 0 where
  waits : Turn
  ends : Turn
  runs : Ptr → Turn

unfoldable pub take_job : Bool → Cmd (Store Job) Turn
take_job terminate = do
  job ← get_head
  if job == null
      then pure (if terminate then ends else waits)
      else (if terminate then pure ends else (do ll_remove job; pure (runs job)))

-- the end of `worker_function`, if it is reached
abbrev pub end_worker : Bool → Ptr → Cmd (Store Worker) (Unit {0})
end_worker true worker = free worker
end_worker false worker = pure tt

-- The loop of `workqueue_shutdown`, from worker `i` on. A worker that has been told to end frees
-- itself; `prompt i` says whether worker `i` does so before the loop reads its `next`, or only when
-- the loop is over.
unfoldable pub terminate_loop : ℕ → (prompt : ℕ → Bool) → ℕ → Ptr → Cmd (Store Worker) (Unit {0})
terminate_loop zero prompt i worker = λ _. out_of_fuel
terminate_loop (suc k) prompt i worker = if worker == null then pure tt else do
  set_item worker (record { terminate = true })
  end_worker (prompt i) worker
  n ← load worker
  terminate_loop k prompt (suc i) n.next

-- `waiting_jobs = NULL`: the jobs are not executed, and not given back.
abbrev pub drop_all : {W : Type 0} → WorkState → Run (Store Worker) W → Run WorkState W
drop_all s (ok a t) = ok a (record {
  workers = record t { head = null };
  waiting_jobs = record (s.waiting_jobs) { head = null };
})
drop_all s fault = fault
drop_all s out_of_fuel = out_of_fuel

unfoldable pub workqueue_shutdown : ℕ → (prompt : ℕ → Bool) → Cmd WorkState (Unit {0})
unfolding terminate_loop
workqueue_shutdown k prompt s = drop_all s (terminate_loop k prompt 0 s.workers.head s.workers)

-- `sighandler` of module.c, for the one work queue of the program
unfoldable pub sighandler : ℕ → (prompt : ℕ → Bool) → Cmd WorkState (Unit {0})
sighandler k prompt = workqueue_shutdown k prompt

-- What `malloc` and `pthread_create` return for one worker.
pub record Start : Type 0 where
  pub worker : Ptr
  pub rc : ℤ

-- `if (numWorkers < 1) numWorkers = 1;`
abbrev pub at_least_one : ℤ → ℕ
at_least_one (pos zero) = 1
at_least_one (pos (suc n)) = suc n
at_least_one (negsuc n) = 1

-- a worker after `memset`
abbrev pub new_worker : Worker
new_worker = record { terminate = false }

-- the loop from `i` on, for `n` more workers
unfoldable pub init_loop : ℕ → ℕ → (ℕ → Start) → Cmd (Store Worker) ℕ
init_loop zero i starts = pure 0
init_loop (suc n) i starts =
    let worker = (starts i).worker in
    if worker == null then pure 1 else do
      alloc worker new_worker
      if (starts i).rc ==ℤ pos 0
          then (do ll_add worker; init_loop n (suc i) starts)
          else (do free worker; pure 1)

abbrev pub put_started : WorkState → Run (Store Worker) ℕ → Run WorkState ℕ
put_started s (ok a t) =
    ok a (record { workers = t; waiting_jobs = record (s.waiting_jobs) { head = null } })
put_started s fault = fault
put_started s out_of_fuel = out_of_fuel

-- The result is 0, or 1 for a failure. The memory of `*workqueue` is cleared first.
unfoldable pub workqueue_init : ℤ → (ℕ → Start) → Cmd WorkState ℕ
unfolding init_loop
workqueue_init num_workers starts s =
    put_started s
      (init_loop (at_least_one num_workers) 0 starts (record (s.workers) { head = null }))
