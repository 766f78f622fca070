-- ===== src/WorkQueue/Jobs.antt =====
-- Jobs are taken in the reverse of the order in which they are added.
use client_shared_lib.Base.{◌≡◌, refl, true, false, some, ◌∷◌, arith, ◌==◌}
use client_shared_lib.Mem.{Ptr, null, node, Heap, Store, write, ◌>>◌}
use client_shared_lib.Mem.Points.{
  Points, Points-write_self, Points-write_ne, load-ok, set_next-ok, set_prev-ok,
}
use client_shared_lib.Mem.Returns
use client_shared_lib.Mem.Returns.{Returns, returns}
use client_shared_lib.Mem.Seg.{Cells, has, Chain, nil, cons, IsQueue, frame-write}
use client_shared_lib.WorkQueue.{Job, ll_add, ll_remove, workqueue_add_job, take_job, runs}

-- `prev` is NULL in every node.
abbrev pub Rootless : Ptr → Ptr → Type 0
Rootless b c = c ≡ null

rebase :
    {A : Type 0} {h : Heap A} {b p : Ptr} {xs : Cells A} (c : Ptr)
    → Chain Rootless h null b p xs
    → Chain Rootless h null c p xs
rebase c nil = nil
rebase c (cons e l out ch) = cons e l out ch

pub ll_add-cons :
    {A : Type 0} (p : Ptr) (s : Store A) {a : A} {b q : Ptr} {xs : Cells A}
    → Points s.heap p (node a b q)
    → IsQueue Rootless s xs
    → has p xs ≡ false
    → Returns
        (λ _ t.
          IsQueue Rootless t ((p, a) ∷ xs) × ((x : Ptr) → (x == p) ≡ false → t.heap x ≡ s.heap x))
        (ll_add p s)
unfolding ll_add write
ll_add-cons p s {a} {b} {q} e ch out =
    let e1 = Points-write_self e (node a null q) in
    let e2 = Points-write_self e1 (node a null (s.head)) in
    rw
      (
        set_prev-ok s e null,
        set_next-ok (record s { heap = write s.heap p (some (node a null q)) }) e1 (s.head),
      )
      (returns (
        cons e2 refl out (rebase p (frame-write p _ (frame-write p _ ch out) out)),
        λ x ne. rw ne refl,
      ))

add-IsQueue :
    (p : Ptr) (s : Store Job) {a : Job} {b q : Ptr} {xs : Cells Job}
    → Points s.heap p (node a b q)
    → IsQueue Rootless s xs
    → has p xs ≡ false
    → Returns (λ _ t. IsQueue Rootless t ((p, a) ∷ xs)) (workqueue_add_job p s)
unfolding workqueue_add_job
add-IsQueue p s e ch out = Returns.mono (ll_add-cons p s e ch out) λ _ t (q, _). q

take-Chain :
    {h : Heap Job} {p : Ptr} {r : Ptr} {a : Job} {xs : Cells Job}
    → Chain Rootless h null null p ((r, a) ∷ xs)
    → Returns
        (λ turn t. (turn ≡ runs r) × IsQueue Rootless t xs × (t.heap r ≡ some (node a null null)))
        (take_job false (record { heap = h; head = p }))
unfolding take_job ll_remove write
take-Chain {h} {r} {a} (cons {c} e l out nil) =
    let s : Store Job = record { heap = h; head = r } in
    let e0 : Points h r (node a null null) = rw l at e in
    let self : (r == r) ≡ true = ground arith in
    rw
      (
        e.not_null,
        load-ok s e0,
        load-ok s e0,
        load-ok s e0,
        self,
        set_next-ok (record s { head = null }) e0 null,
        set_prev-ok (record { heap = write h r (some (node a null null)); head = null })
            (Points-write_self e0 _) null,
      )
      (returns (refl, nil, rw self))
take-Chain {h} {r} {a} (cons {c} {q} e l out (cons {q = z} {a = b} e' l' out' ch)) =
    let s : Store Job = record { heap = h; head = r } in
    let e0 : Points h r (node a null q) = rw l at e in
    let h1 : Heap Job = write h q (some (node b null z)) in
    let s1 : Store Job = record { heap = h1; head = r } in
    let e1 : Points h1 r (node a null q) = Points-write_ne e0 q _ (ground arith) in
    let self : (r == r) ≡ true = ground arith in
    let h2 : Heap Job = write h1 r (some (node a null null)) in
    rw
      (
        e.not_null,
        load-ok s e0,
        load-ok s e0,
        e'.not_null,
        set_prev-ok s e' null,
        load-ok s1 e1,
        self,
        set_next-ok (record s1 { head = q }) e1 null,
        set_prev-ok (record { heap = h2; head = q }) (Points-write_self e1 (node a null null)) null,
      )
      (returns (
        refl,
        cons
            (Points-write_ne
              (Points-write_ne (Points-write_self e' (node b null z)) r _ (ground arith)) r _
              (ground arith))
            refl out'
            (frame-write r _ (frame-write r _ (frame-write q _ ch out') (ground arith))
              (ground arith)),
        rw self,
      ))

-- take
pub take_job-head :
    (s : Store Job) {r : Ptr} {a : Job} {xs : Cells Job}
    → IsQueue Rootless s ((r, a) ∷ xs)
    → Returns
        (λ turn t. (turn ≡ runs r) × IsQueue Rootless t xs × (t.heap r ≡ some (node a null null)))
        (take_job false s)
take_job-head s ch = take-Chain ch

-- A job whose node is added to a whole queue of jobs is the job that the next worker takes: the
-- queue is then as it was before, and both links of the node are NULL.
pub add_job-take_job :
    (p : Ptr) (s : Store Job) {a : Job} {b q : Ptr} {xs : Cells Job}
    → Points s.heap p (node a b q)
    → IsQueue Rootless s xs
    → has p xs ≡ false
    → Returns
        (λ turn t. (turn ≡ runs p) × IsQueue Rootless t xs × (t.heap p ≡ some (node a null null)))
        ((workqueue_add_job p >> take_job false) s)
add_job-take_job p s e ch out = Returns.bind (add-IsQueue p s e ch out) λ _ t q. take_job-head t q
