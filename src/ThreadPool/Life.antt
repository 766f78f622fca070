-- ===== src/ThreadPool/Life.antt =====
-- The life of a worker: what is pushed, in whatever order the threads move, is executed in that
-- order, and nothing twice.
use client_shared_lib.Base.{
  ◌≡◌, refl, ◌∙◌, sym, ap, Bool, some, List, [], ◌∷◌, ◌++◌, append_assoc, if◌then◌else◌,
}
use client_shared_lib.Base.Int.{ℤ}
use client_shared_lib.TsQueue.{push_back, pop_front, empty}
use client_shared_lib.ThreadPool.{
  Task, Thread, absent, looping, popping, draining, taking, finished, Worker, new_worker, turn,
  worker_push,
}
use client_shared_lib.ThreadPool.Join.{worker}

module _ {A : Type 0} where
  -- The worker after some pushes, in their order, and steps of its thread and of those that start and
  -- join it; the flag may change at any time.
  pub data Life : List (Task A) → Worker A → Type 0 where
    born : Life [] new_worker
    pushed :
        {ts : List (Task A)} {w : Worker A} (t : Task A)
        → Life ts w
        → Life (ts ++ t ∷ []) (worker_push t w)
    moved :
        {ts : List (Task A)} {w w' : Worker A} (end_flag : Bool)
        → Life ts w
        → turn end_flag w ≡ some w'
        → Life ts w'
    started :
        {ts : List (Task A)} {w : Worker A} (affinity : ℤ)
        → Life ts w
        → w.thread ≡ absent
        → Life ts (record w { thread = looping; affinity = affinity })
    joined :
        {ts : List (Task A)} {w : Worker A}
        → Life ts w
        → w.thread ≡ finished
        → Life ts (record w { thread = absent })

  -- a step moves at most the first task from the queue to those executed
  turn-keeps :
      (end_flag : Bool) (q : List (Task A)) (th : Thread) (a : ℤ) (r : List (Task A)) {w : Worker A}
      → turn end_flag (worker q th a r) ≡ some w
      → w.ran ++ w.queue ≡ r ++ q
  unfolding turn pop_front
  turn-keeps end_flag q absent a r e = cc
  turn-keeps end_flag q looping a r {w} e =
      let same : w ≡ worker q (if end_flag then draining else popping) a r = cc in rw same
  turn-keeps end_flag [] popping a r e = cc
  turn-keeps end_flag (t ∷ q) popping a r {w} e =
      let same : w ≡ worker q looping a (r ++ t ∷ []) = cc in rw same (append_assoc r (t ∷ []) q)
  turn-keeps end_flag q draining a r {w} e =
      let same : w ≡ worker q (if empty q then finished else taking) a r = cc in rw same
  turn-keeps end_flag [] taking a r e = cc
  turn-keeps end_flag (t ∷ q) taking a r {w} e =
      let same : w ≡ worker q draining a (r ++ t ∷ []) = cc in rw same (append_assoc r (t ∷ []) q)
  turn-keeps end_flag q finished a r e = cc

  -- In whatever order tasks are pushed to a worker, its thread takes steps, the flag for its end
  -- changes, and it is started and joined, the tasks that it has executed followed by those in
  -- its queue are the tasks that were pushed, in their order: none is lost, doubled or overtaken.
  pub Life-in_order : {ts : List (Task A)} {w : Worker A} → Life ts w → w.ran ++ w.queue ≡ ts
  unfolding worker_push push_back
  Life-in_order born = refl
  Life-in_order (pushed {w} t life) =
      sym (append_assoc w.ran w.queue (t ∷ [])) ∙ ap (λ xs. xs ++ t ∷ []) (Life-in_order life)
  Life-in_order (moved {w} end_flag life e) =
      turn-keeps end_flag w.queue w.thread w.affinity w.ran e ∙ Life-in_order life
  Life-in_order (started a life e) = Life-in_order life
  Life-in_order (joined life e) = Life-in_order life
