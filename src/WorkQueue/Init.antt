-- ===== src/WorkQueue/Init.antt =====
-- What `workqueue_init` leaves behind, and what `workqueue_shutdown` does with the workers.
use client_shared_lib.Base.{
  Bool, ℕ, zero, suc, ◌+◌, ◌<◌, ◌≤◌, ◌≡◌, refl, ◌∙◌, true, false, none, some, [], ◌∷◌, arith,
  length, ◌==◌,
}
use client_shared_lib.Base.Int.{ℤ, pos, ◌==ℤ◌}
use client_shared_lib.Mem.{null, node, Heap, Store, Run, write, alloc, ◌>>◌, fault}
use client_shared_lib.Mem.Points.{Points}
use client_shared_lib.Mem.Returns
use client_shared_lib.Mem.Returns.{Returns, returns}
use client_shared_lib.Mem.Seg.{Cells, has, nil, IsQueue, frame-write, not-has_of_none}
use client_shared_lib.WorkQueue.{
  Worker, WorkState, Start, at_least_one, new_worker, init_loop, put_started, workqueue_init,
  workqueue_shutdown,
}
use client_shared_lib.WorkQueue.Jobs.{Rootless, ll_add-cons}
use client_shared_lib.WorkQueue.Shutdown.{workqueue_shutdown-fault}

-- `n` workers from `i` on, the last one first, in front of `ws`
unfoldable pub started : ℕ → ℕ → (ℕ → Start) → Cells Worker → Cells Worker
started zero i starts ws = ws
started (suc n) i starts ws = started n (suc i) starts (((starts i).worker, new_worker) ∷ ws)

-- The workers from `i` to `m` have memory of their own, and their threads are created.
pub record AllStart (starts : ℕ → Start) (h : Heap Worker) (i m : ℕ) : Type 0 where
  pub given : (j : ℕ) → i ≤ j → j < m → ((starts j).worker == null) ≡ false
  pub unused : (j : ℕ) → i ≤ j → j < m → h ((starts j).worker) ≡ none
  pub apart : (j k : ℕ) → i ≤ j → j < k → k < m → ((starts k).worker == (starts j).worker) ≡ false
  pub created : (j : ℕ) → i ≤ j → j < m → ((starts j).rc ==ℤ pos 0) ≡ true

module _ (starts : ℕ → Start) (m : ℕ) where
  init_loop-started :
      (n i : ℕ) (s : Store Worker) {ws : Cells Worker}
      → i + n ≡ m
      → IsQueue Rootless s ws
      → AllStart starts s.heap i m
      → Returns
          (λ r t. (r ≡ 0) × IsQueue Rootless t (started n i starts ws))
          (init_loop n i starts s)
  unfolding init_loop started alloc write
  init_loop-started zero i s size q all = returns (refl, q)
  init_loop-started (suc n) i s {ws} size q all =
      let p = (starts i).worker in
      let some_p = all.given i (omega arith) (omega arith) in
      let h = write s.heap p (some (node new_worker null null)) in
      let self : (p == p) ≡ true = ground arith in
      let e : Points h p (node new_worker null null) = record {
        not_null = some_p;
        holds = rw self refl;
      } in
      let out : has p ws ≡ false = not-has_of_none p q (all.unused i (omega arith) (omega arith)) in
      rw (some_p, all.created i (omega arith) (omega arith), alloc)
        (Returns.bind (ll_add-cons p (record s { heap = h }) e (frame-write p _ q out) out)
          λ _ t (q', same). init_loop-started n (suc i) t (omega arith) q' (record {
            given = λ j lo hi. all.given j (omega arith) hi;
            unused = λ j lo hi.
                let ne = all.apart i j (omega arith) (omega arith) hi in
                same ((starts j).worker) ne ∙ rw ne (all.unused j (omega arith) hi);
            apart = λ j k lo lt hi. all.apart j k (omega arith) lt hi;
            created = λ j lo hi. all.created j (omega arith) hi;
          }))

put_started-Returns :
    {P : ℕ → Store Worker → Type 0} {r : Run (Store Worker) ℕ} (s : WorkState)
    → Returns P r
    → Returns
        (λ a t. P a t.workers × (t.waiting_jobs ≡ record (s.waiting_jobs) { head = null }))
        (put_started s r)
put_started-Returns s (returns p) = returns (p, refl)

length-started :
    (n i : ℕ) (starts : ℕ → Start) (ws : Cells Worker)
    → length (started n i starts ws) ≡ n + length ws
unfolding started
length-started zero i starts ws = omega arith
length-started (suc n) i starts ws =
    omega (arith, length-started n (suc i) starts (((starts i).worker, new_worker) ∷ ws))

module _ (num_workers : ℤ) (starts : ℕ → Start) (s : WorkState)
    (all : AllStart starts s.workers.heap 0 (at_least_one num_workers)) where
  workqueue_init-started :
      Returns
        (λ r t.
          (r ≡ 0)
          × IsQueue Rootless t.workers (started (at_least_one num_workers) 0 starts [])
          × (t.waiting_jobs ≡ record (s.waiting_jobs) { head = null }))
        (workqueue_init num_workers starts s)
  unfolding workqueue_init
  workqueue_init-started =
      Returns.mono
        (put_started-Returns s (
          init_loop-started starts (at_least_one num_workers) (at_least_one num_workers) 0
            (record (s.workers) { head = null }) (omega arith) nil all))
        λ r t ((zero_r, q), jobs). (zero_r, q, jobs)

  length-all : length (started (at_least_one num_workers) 0 starts []) ≡ at_least_one num_workers
  length-all = omega (arith, length-started (at_least_one num_workers) 0 starts [])

  -- If every worker is given memory of its own and its thread is created, and one of the workers
  -- that were asked for, once it has been told to end, frees itself before workqueue_shutdown
  -- reads which worker is next, then workqueue_init followed by workqueue_shutdown reads memory
  -- that has been given back.
  pub workqueue_init-use_after_free :
      (k : ℕ) (prompt : ℕ → Bool) (j : ℕ)
      → at_least_one num_workers < k
      → j < at_least_one num_workers
      → prompt j ≡ true
      → (workqueue_init num_workers starts >> workqueue_shutdown k prompt) s ≡ fault
  workqueue_init-use_after_free k prompt j fuel there ended =
      Returns.bind_eq fault workqueue_init-started λ r t (_, q, _).
        workqueue_shutdown-fault prompt k j t q (omega (arith, length-all))
          (omega (arith, length-all)) ended
