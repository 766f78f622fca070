-- ===== src/IdQueue/Remove.antt =====
-- `rem_id` drops the first entry with the id and gives its node back. It does not repair the `prev`
-- pointer of the node behind, which nothing reads in this queue.
use client_shared_lib.Base.{
  ℕ, zero, suc, ◌<◌, ◌≡◌, refl, inl, inr, true, false, none, some, ◌∷◌, arith, length, str_eq,
  Bool-cases, ◌==◌,
}
use client_shared_lib.Mem.{Ptr, null, node, Heap, write}
use client_shared_lib.Mem.Points.{
  Points, load-ok, set_next-ok, free-ok, Points-write_self, Points-write_ne,
}
use client_shared_lib.Mem.Returns
use client_shared_lib.Mem.Returns.{Returns, returns}
use client_shared_lib.Mem.Seg.{
  Cells, has, Chain, nil, cons, Loose, IsQueue, SameOutside, frame-write, cons-SameOutside,
  SameOutside-cons,
}
use client_shared_lib.Types.{CString, IdEntry}
use client_shared_lib.IdQueue.{IdStore, remove_loop, rem_id}
use client_shared_lib.IdQueue.Entries.{erase, not-has-erase}

-- the addresses of `xs` that are not in `ys` hold no node
abbrev pub Freed : Cells IdEntry → Cells IdEntry → Heap IdEntry → Type 0
Freed xs ys g = (a : Ptr) → has a xs ≡ true → has a ys ≡ false → g a ≡ none

rebase :
    {h : Heap IdEntry} {stop b p : Ptr} {xs : Cells IdEntry} (b' : Ptr)
    → Chain Loose h stop b p xs
    → Chain Loose h stop b' p xs
rebase b' nil = nil
rebase b' (cons e l out ch) = cons e l out ch

module _ (tid : CString) where
  remove_loop-erase :
      (k : ℕ) (s : IdStore) {before p c q : Ptr} {b : IdEntry} {xs : Cells IdEntry}
      → Points s.heap p (node b c q)
      → has p xs ≡ false
      → Chain Loose s.heap null p q xs
      → length xs < k
      → Returns
          (λ _ t.
            Chain Loose t.heap null before p ((p, b) ∷ erase tid xs)
            × (t.head ≡ s.head)
            × SameOutside ((p, b) ∷ xs) s.heap t.heap
            × Freed ((p, b) ∷ xs) ((p, b) ∷ erase tid xs) t.heap)
          (remove_loop k tid p s)
  unfolding remove_loop erase write
  remove_loop-erase zero s e out ch fuel = absurd (omega arith)
  remove_loop-erase (suc k) s e out nil fuel =
      rw (load-ok s e) (returns (cons e tt refl nil, refl, λ x i. refl, ground arith))
  remove_loop-erase (suc k) s {p} {c} {b} e out (cons {p = q} {q = r} {a} {xs = ys} e' l' out' ch)
        fuel =
      elim (Bool-cases (str_eq a.id tid)) [
        | inl hit ↦
            let h = write s.heap p (some (node b c r)) in
            let ne : (q == p) ≡ false = ground arith in
            let two = Points-write_ne e' p (some (node b c r)) ne in
            let ch' =
              frame-write q none (frame-write p (some (node b c r)) ch (ground arith)) out' in
            rw
              (
                load-ok s e,
                e'.not_null,
                load-ok s e',
                hit,
                set_next-ok s e r,
                free-ok (record s { heap = h }) two,
              )
              (returns (
                cons (Points-write_ne (Points-write_self e _) q none (ground arith)) tt
                    (ground arith) (rebase p ch'),
                refl,
                λ x i. ground arith,
                λ x i o. ground arith,
              ))
        | inr miss ↦
            rw (load-ok s e, e'.not_null, load-ok s e', miss)
              (Returns.mono (remove_loop-erase k s {before = p} e' out' ch (omega arith))
                λ _ t (chain, head, same, freed). (
                  cons-SameOutside ((q, a) ∷ ys) e tt out (ground (arith, not-has-erase p tid ys))
                      same chain,
                  head,
                  SameOutside-cons p b ((q, a) ∷ ys) same,
                  λ x i o. freed x (ground arith) (ground arith),
                ))
      ]

  rem_id-Chain :
      (k : ℕ) {h : Heap IdEntry} {p : Ptr} {xs : Cells IdEntry}
      → Chain Loose h null null p xs
      → length xs < k
      → Returns
          (λ _ t.
            IsQueue Loose t (erase tid xs)
            × SameOutside xs h t.heap
            × Freed xs (erase tid xs) t.heap)
          (rem_id k tid (record { heap = h; head = p }))
  unfolding rem_id erase write
  rem_id-Chain k nil fuel = returns (nil, λ x i. refl, ground arith)
  rem_id-Chain k {h} {p} (cons {q} {a} {xs} e l out ch) fuel = elim (Bool-cases (str_eq a.id tid)) [
    | inl hit ↦
        let s : IdStore = record { heap = h; head = p } in
        rw (e.not_null, load-ok s e, hit, free-ok (record s { head = q }) e)
          (returns
            (rebase null (frame-write p none ch out), λ x i. ground arith, λ x i o. ground arith))
    | inr miss ↦
        let s : IdStore = record { heap = h; head = p } in
        rw (e.not_null, load-ok s e, miss)
          (Returns.mono (remove_loop-erase k s {before = null} e out ch (omega arith))
            λ _ t (chain, head, same, freed). (rw head chain, same, freed))
  ]

  -- On a whole transaction queue rem_id returns with the first entry that has the id dropped and
  -- its node freed, every other entry in place, and no address outside the queue touched; without
  -- such an entry nothing is dropped.
  pub rem_id-erase :
      (k : ℕ) (s : IdStore) {xs : Cells IdEntry}
      → IsQueue Loose s xs
      → length xs < k
      → Returns
          (λ _ t.
            IsQueue Loose t (erase tid xs)
            × SameOutside xs s.heap t.heap
            × Freed xs (erase tid xs) t.heap)
          (rem_id k tid s)
  rem_id-erase k s q fuel = rem_id-Chain k q fuel
