-- ===== src/WorkQueue/Shutdown.antt =====
-- After `workqueue_shutdown` every worker ends at its next turn.
use client_shared_lib.Base.{
  ◌+◌, ◌≤◌, ◌==◌, ◌≢◌, Bool, false, none, sym, ap, Bool-cases, inl, inr, ℕ, zero, suc, ◌<◌, ◌≡◌,
  refl, ◌∙◌, true, [], ◌∷◌, some, arith, length,
}
use client_shared_lib.Mem.{Ptr, null, node, Store, Run, write, ok, fault}
use client_shared_lib.Mem.Points.{Points-write_self, load-ok, load-fault, free-ok, set_item-ok}
use client_shared_lib.Mem.Returns
use client_shared_lib.Mem.Returns.{Returns, returns}
use client_shared_lib.Mem.Seg.{
  Cells, has, Chain, nil, cons, IsQueue, frame-write, SameOutside, SameOutside-write,
  cons-SameOutside,
}
use client_shared_lib.WorkQueue.{
  Worker, WorkState, drop_all, terminate_loop, workqueue_shutdown, take_job, ends,
}

-- the workers, each told to end
abbrev pub terminated : Cells Worker → Cells Worker
terminated [] = []
terminated ((p, w) ∷ ws) = (p, record { terminate = true }) ∷ terminated ws

has-terminated : (a : Ptr) (ws : Cells Worker) → has a (terminated ws) ≡ has a ws
has-terminated a [] = refl
has-terminated a ((p, w) ∷ ws) = rw (has-terminated a ws)

dropped :
    {P : Store Worker → Type 0} {r : Run (Store Worker) (Unit {0})} (s : WorkState)
    → Returns (λ _ t. P t) r
    → Returns
        (λ _ t.
          (w : Store Worker) × P w
          × (t.workers ≡ record w { head = null })
          × (t.waiting_jobs ≡ record (s.waiting_jobs) { head = null }))
        (drop_all s r)
dropped s (returns {s = w} p) = returns (w, p, refl, refl)

-- no worker of `n` from `i` on is at its end before the loop has gone on
abbrev pub AreSlow : (ℕ → Bool) → ℕ → ℕ → Type 0
AreSlow prompt i n = (j : ℕ) → i ≤ j → j < i + n → prompt j ≡ false

module _ {L : Ptr → Ptr → Type 0} (prompt : ℕ → Bool) where
  terminate_loop-terminated :
      (k i : ℕ) (s : Store Worker) {b p : Ptr} {ws : Cells Worker}
      → Chain L s.heap null b p ws
      → length ws < k
      → AreSlow prompt i (length ws)
      → Returns
          (λ _ t. Chain L t.heap null b p (terminated ws) × SameOutside ws s.heap t.heap)
          (terminate_loop k prompt i p s)
  unfolding terminate_loop
  terminate_loop-terminated zero i s ch fuel slow = absurd (omega arith)
  terminate_loop-terminated (suc k) i s nil fuel slow = returns (nil, λ x o. refl)
  terminate_loop-terminated (suc k) i s (cons {p} {c} {q} {a} {xs = ws} e l out ch) fuel slow =
      let w : Worker = record { terminate = true } in
      let h = write s.heap p (some (node w c q)) in
      let told = Points-write_self e (node w c q) in
      rw
        (
          e.not_null,
          set_item-ok s e w,
          slow i (omega arith) (omega arith),
          load-ok (record s { heap = h }) told,
        )
        (Returns.mono
          (terminate_loop-terminated k (suc i) (record s { heap = h }) (frame-write p _ ch out)
            (omega arith) (λ j lo hi. slow j (omega arith) (omega arith)))
          λ _ t (chain, same). (
            cons-SameOutside ws told l out (rw (has-terminated p ws) out) same chain,
            λ x o. same x (ground arith) ∙ SameOutside-write s.heap p a _ ws x o,
          ))

  terminate_loop-fault :
      (k i j : ℕ) (s : Store Worker) {b p : Ptr} {ws : Cells Worker}
      → Chain L s.heap null b p ws
      → length ws < k
      → i ≤ j
      → j < i + length ws
      → prompt j ≡ true
      → terminate_loop k prompt i p s ≡ fault
  unfolding terminate_loop write
  terminate_loop-fault zero i j s ch fuel lo hi ended = absurd (omega arith)
  terminate_loop-fault (suc k) i j s nil fuel lo hi ended = absurd (omega arith)
  terminate_loop-fault (suc k) i j s (cons {p} {c} {q} {a} {xs = ws} e l out ch) fuel lo hi ended =
      let w : Worker = record { terminate = true } in
      let h = write s.heap p (some (node w c q)) in
      let told = Points-write_self e (node w c q) in
      let self : (p == p) ≡ true = ground arith in
      elim (Bool-cases (prompt i)) [
        | inl early ↦
            rw
              (
                e.not_null,
                set_item-ok s e w,
                early,
                free-ok (record s { heap = h }) told,
                load-fault (record s { heap = write h p none }) p e.not_null (rw self refl),
              )
              refl
        | inr late ↦
            let other : i ≢ j =
              λ same. let clash : true ≡ false = sym ended ∙ ap prompt (sym same) ∙ late in cc in
            rw (e.not_null, set_item-ok s e w, late, load-ok (record s { heap = h }) told)
              (terminate_loop-fault k (suc i) j (record s { heap = h }) (frame-write p _ ch out)
                (omega arith) (omega arith) (omega arith) ended)
      ]

  -- On a whole list of workers, none of which ends before, workqueue_shutdown returns with each
  -- worker told to end, no other address of the workers' memory changed, both lists empty, and a
  -- worker that has been told so ends at its next turn.
  pub workqueue_shutdown-terminated :
      (k : ℕ) (s : WorkState) {ws : Cells Worker}
      → IsQueue L s.workers ws
      → length ws < k
      → AreSlow prompt 0 (length ws)
      → Returns
          (λ _ t.
            Chain L t.workers.heap null null s.workers.head (terminated ws)
            × SameOutside ws s.workers.heap t.workers.heap
            × (t.workers.head ≡ null)
            × (take_job true t.waiting_jobs ≡ ok ends t.waiting_jobs))
          (workqueue_shutdown k prompt s)
  unfolding workqueue_shutdown take_job
  workqueue_shutdown-terminated k s q fuel slow =
      Returns.mono (dropped s (terminate_loop-terminated k 0 (s.workers) q fuel slow))
        λ _ t (w, (chain, same), workers, jobs). rw (workers, jobs) (chain, same, refl, refl)

  -- A worker that ends at once: the loop reads the memory that it has given back.
  pub workqueue_shutdown-fault :
      (k j : ℕ) (s : WorkState) {ws : Cells Worker}
      → IsQueue L s.workers ws
      → length ws < k
      → j < length ws
      → prompt j ≡ true
      → workqueue_shutdown k prompt s ≡ fault
  unfolding workqueue_shutdown
  workqueue_shutdown-fault k j s q fuel there ended =
      rw (terminate_loop-fault k 0 j (s.workers) q fuel (omega arith) (omega arith) ended) refl
