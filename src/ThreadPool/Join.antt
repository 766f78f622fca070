-- ===== src/ThreadPool/Join.antt =====
-- How a worker comes to its end, and how it does not.
use client_shared_lib.Base.{
  ℕ, zero, suc, ◌+◌, ◌*◌, ◌≤◌, ◌≡◌, ◌≢◌, refl, ◌∙◌, sym, ap, ◌⊎◌, inl, inr, true, false, List, [],
  ◌∷◌, ◌++◌, append_assoc, append-nil, arith, ◌==◌, length, length-append,
}
use client_shared_lib.Base.Int.{ℤ}
use client_shared_lib.Mem.{ok, out_of_fuel}
use client_shared_lib.Mem.Returns.{Returns, returns}
use client_shared_lib.TsQueue.{push_back, pop_front}
use client_shared_lib.ThreadPool.{
  Task, nothing, Thread, absent, looping, popping, draining, taking, finished, Worker, turn, join,
  worker_push, worker_end,
}

module _ {A : Type 0} where
  -- a worker, by its parts
  abbrev pub worker : List (Task A) → Thread → ℤ → List (Task A) → Worker A
  worker queue thread affinity ran = record {
    queue = queue;
    thread = thread;
    affinity = affinity;
    ran = ran;
  }

  join-draining :
      (k : ℕ) (q : List (Task A)) (a : ℤ) (r : List (Task A))
      → 2 * length q + 2 ≤ k
      → join k true (worker q draining a r) ≡ ok tt (worker [] absent a (r ++ q))
  unfolding join turn pop_front
  join-draining zero q a r fuel = absurd (omega arith)
  join-draining (suc zero) q a r fuel = absurd (omega arith)
  join-draining (suc (suc k)) [] a r fuel = rw (append-nil r)
  join-draining (suc (suc k)) (t ∷ q) a r fuel =
      let some_task : (suc (length q) == 0) ≡ false = ground arith in
      rw (some_task, join)
        (join-draining k q a (r ++ t ∷ []) (omega arith) ∙ rw (append_assoc r (t ∷ []) q))

  -- what `worker::end` leaves of a worker, when the flag is set
  pub record Ended (w w' : Worker A) : Type 0 where
    pub gone : w'.thread ≡ absent
    pub executed :
        ((w'.queue ≡ []) × (w'.ran ≡ w.ran ++ (w.queue ++ nothing ∷ [])))
        ⊎ ((w'.queue ≡ nothing ∷ []) × (w'.ran ≡ w.ran ++ w.queue))

  -- the thread is there, and has not finished with tasks in its queue
  pub record IsLive (w : Worker A) : Type 0 where
    pub there : w.thread ≢ absent
    pub empty_at_end : w.thread ≡ finished → w.queue ≡ []

  join-taking :
      (k : ℕ) (t : Task A) (q : List (Task A)) (a : ℤ) (r : List (Task A))
      → 2 * length (t ∷ q) + 2 ≤ k
      → join k true (worker (t ∷ q) taking a r) ≡ ok tt (worker [] absent a (r ++ t ∷ q))
  unfolding join turn pop_front
  join-taking zero t q a r fuel = absurd (omega arith)
  join-taking (suc k) t q a r fuel =
      join-draining k q a (r ++ t ∷ []) (omega arith) ∙ rw (append_assoc r (t ∷ []) q)

  join-looping :
      (k : ℕ) (q : List (Task A)) (a : ℤ) (r : List (Task A))
      → 2 * length q + 3 ≤ k
      → join k true (worker q looping a r) ≡ ok tt (worker [] absent a (r ++ q))
  unfolding join turn
  join-looping zero q a r fuel = absurd (omega arith)
  join-looping (suc k) q a r fuel = join-draining k q a r (omega arith)

  join-popping :
      (k : ℕ) (t : Task A) (q : List (Task A)) (a : ℤ) (r : List (Task A))
      → 2 * length (t ∷ q) + 3 ≤ k
      → join k true (worker (t ∷ q) popping a r) ≡ ok tt (worker [] absent a (r ++ t ∷ q))
  unfolding join turn pop_front
  join-popping zero t q a r fuel = absurd (omega arith)
  join-popping (suc k) t q a r fuel =
      join-looping k q a (r ++ t ∷ []) (omega arith) ∙ rw (append_assoc r (t ∷ []) q)

  -- the first task of a queue that ends in one
  first-task :
      (q : List (Task A)) (x : Task A)
      → (t : Task A) × (rest : List (Task A)) × (q ++ x ∷ [] ≡ t ∷ rest)
  first-task [] x = (x, [], refl)
  first-task (t ∷ q) x = (t, q ++ x ∷ [], refl)

  pub worker_end-Ended :
      (k : ℕ) (q : List (Task A)) (th : Thread) (a : ℤ) (r : List (Task A))
      → IsLive (worker q th a r)
      → 2 * length q + 6 ≤ k
      → Returns (λ _ w'. Ended (worker q th a r) w') (worker_end k true (worker q th a r))
  unfolding worker_end worker_push push_back
  worker_end-Ended k q absent a r live fuel = absurd (live.there refl)
  worker_end-Ended k q looping a r live fuel =
      rw (join-looping k (q ++ nothing ∷ []) a r (omega (arith, length-append q (nothing ∷ []))))
        (returns (record { gone = refl; executed = inl (refl, refl) }))
  worker_end-Ended k q popping a r live fuel =
      let (t, rest, e) = first-task q nothing in
      let end : join k true (worker (q ++ nothing ∷ []) popping a r)
          ≡ ok tt (worker [] absent a (r ++ (q ++ nothing ∷ []))) =
        rw e (
          join-popping k t rest a r (omega (arith, ap length e, length-append q (nothing ∷ [])))) in
      rw end (returns (record { gone = refl; executed = inl (refl, refl) }))
  worker_end-Ended k q draining a r live fuel =
      rw (join-draining k (q ++ nothing ∷ []) a r (omega (arith, length-append q (nothing ∷ []))))
        (returns (record { gone = refl; executed = inl (refl, refl) }))
  worker_end-Ended k q taking a r live fuel =
      let (t, rest, e) = first-task q nothing in
      let end : join k true (worker (q ++ nothing ∷ []) taking a r)
          ≡ ok tt (worker [] absent a (r ++ (q ++ nothing ∷ []))) =
        rw e
          (join-taking k t rest a r (omega (arith, ap length e, length-append q (nothing ∷ [])))) in
      rw end (returns (record { gone = refl; executed = inl (refl, refl) }))
  worker_end-Ended zero q finished a r live fuel = absurd (omega arith)
  worker_end-Ended (suc k) q finished a r live fuel =
      let none_left : q ≡ [] = live.empty_at_end refl in
      rw none_left (returns (record { gone = refl; executed = inr (refl, sym (append-nil r)) }))

  -- With the flag down a thread that waits for tasks does not end.
  pub join-waits :
      (k : ℕ) (q : List (Task A)) (a : ℤ) (r : List (Task A))
      → (join k false (worker q looping a r) ≡ out_of_fuel)
        × (join k false (worker q popping a r) ≡ out_of_fuel)
  unfolding join turn pop_front
  join-waits zero q a r = (refl, refl)
  join-waits (suc k) [] a r = ((join-waits k [] a r).1, refl)
  join-waits (suc k) (t ∷ q) a r =
      ((join-waits k (t ∷ q) a r).1, (join-waits k q a (r ++ t ∷ [])).0)
