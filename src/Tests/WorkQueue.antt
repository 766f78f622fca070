-- ===== src/Tests/WorkQueue.antt =====
-- Two jobs, and two workers.
use client_shared_lib.Base.{Bool, ◌==◌, ℕ, ◌+◌, ◌≡◌, refl, false, none, some, [], ◌∷◌, arith}
use client_shared_lib.Mem.{Ptr, null, node, Store, write, ◌>>◌, fault}
use client_shared_lib.Mem.Points.{Points}
use client_shared_lib.Mem.Returns.{Returns}
use client_shared_lib.Mem.Seg.{Cells, nil, cons, IsQueue}
use client_shared_lib.WorkQueue.{
  Job, Worker, WorkState, runs, workqueue_add_job, take_job, workqueue_shutdown, Start,
  workqueue_init,
}
use client_shared_lib.Base.Int.{pos}
use client_shared_lib.WorkQueue.Init.{AllStart, workqueue_init-use_after_free}
use client_shared_lib.WorkQueue.Jobs.{Rootless, add_job-take_job}

abbrev job : Ptr → Job
job d = record { job_function = 50; user_data = d }

-- The job at 30 waits; the one at 31 is to be added.
abbrev jobs : Store Job
jobs = record {
  heap =
      write (write (λ p. none) 30 (some (node (job 1) null null))) 31
        (some (node (job 2) null null));
  head = 30;
}

jobs-IsQueue : IsQueue Rootless jobs ((30, job 1) ∷ [])
unfolding write
jobs-IsQueue = cons (ground arith) refl refl nil

new_job-Points : Points jobs.heap 31 (node (job 2) null null)
unfolding write
new_job-Points = ground arith

add_job-take_job_example :
    Returns
      (λ turn t.
        (turn ≡ runs 31)
        × IsQueue Rootless t ((30, job 1) ∷ [])
        × (t.heap 31 ≡ some (node (job 2) null null)))
      ((workqueue_add_job 31 >> take_job false) jobs)
add_job-take_job_example = add_job-take_job 31 jobs new_job-Points jobs-IsQueue refl

abbrev worker : Worker
worker = record { terminate = false }

abbrev workers : Store Worker
workers = record {
  heap = write (write (λ p. none) 40 (some (node worker 0 41))) 41 (some (node worker 0 0));
  head = 40;
}

abbrev both : Cells Worker
both = (40, worker) ∷ (41, worker) ∷ []

workers-IsQueue : IsQueue Rootless workers both
unfolding write
workers-IsQueue = cons (ground arith) refl refl (cons (ground arith) refl refl nil)

abbrev state : WorkState
state = record { workers = workers; waiting_jobs = jobs }

-- The workers get the addresses from 60 on.
abbrev starts : ℕ → Start
starts i = record { worker = 60 + i; rc = pos 0 }

abbrev no_workers : WorkState
no_workers = record {
  workers = record { heap = λ p. none; head = 5 };
  waiting_jobs = record { heap = λ p. none; head = 6 };
}

starts-AllStart : AllStart starts no_workers.workers.heap 0 2
starts-AllStart = record {
  given = λ j lo hi. ground arith;
  unused = λ j lo hi. refl;
  apart = λ j k lo lt hi. ground arith;
  created = λ j lo hi. ground arith;
}

-- the worker that is told first has ended
abbrev first_prompt : ℕ → Bool
first_prompt i = i == 0

workqueue_init-use_after_free_example :
    (workqueue_init (pos 2) starts >> workqueue_shutdown 3 first_prompt) no_workers ≡ fault
workqueue_init-use_after_free_example =
    workqueue_init-use_after_free (pos 2) starts no_workers starts-AllStart 3 first_prompt 0
      (omega arith) (omega arith) refl
