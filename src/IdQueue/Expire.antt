-- ===== src/IdQueue/Expire.antt =====
-- `list_expired_idq` marks the entries whose time is over, and removes none.
use client_shared_lib.Base.{
  ℕ, zero, suc, ◌<◌, ◌≡◌, refl, inl, inr, some, ◌∙◌, true, arith, length, Bool-cases,
}
use client_shared_lib.Mem.{Ptr, null, node, Heap, write}
use client_shared_lib.Mem.Points.{load-ok, set_item-ok, Points-write_self}
use client_shared_lib.Mem.Returns
use client_shared_lib.Mem.Returns.{Returns, returns}
use client_shared_lib.Mem.Seg.{
  Cells, Chain, nil, cons, IsQueue, SameOutside, SameOutside-cons, cons-SameOutside, frame-write,
  SameOutside-write,
}
use client_shared_lib.Types.{TimeVal, IdEntry}
use client_shared_lib.IdQueue.{IdStore, is_past, expire_loop, list_expired}
use client_shared_lib.IdQueue.Entries.{expire, has-expire}

module _ {L : Ptr → Ptr → Type 0} (clock : ℕ → TimeVal) where
  expire_loop-expire :
      (k i : ℕ) (s : IdStore) {b p : Ptr} {xs : Cells IdEntry}
      → Chain L s.heap null b p xs
      → length xs < k
      → Returns
          (λ _ t.
            Chain L t.heap null b p (expire clock i xs)
            × (t.head ≡ s.head)
            × SameOutside xs s.heap t.heap)
          (expire_loop k clock i p s)
  unfolding expire_loop expire
  expire_loop-expire zero i s ch fuel = absurd (omega arith)
  expire_loop-expire (suc k) i s nil fuel = returns (nil, refl, λ x o. refl)
  expire_loop-expire (suc k) i s (cons {p} {c} {q} {a} {xs} e l out ch) fuel =
      elim (Bool-cases (is_past a.e_time (clock i))) [
        | inl past ↦
            let a' : IdEntry = record a { is_expired = true } in
            let h = write s.heap p (some (node a' c q)) in
            rw (e.not_null, load-ok s e, past, set_item-ok s e a')
              (Returns.mono
                (expire_loop-expire k (suc i) (record s { heap = h }) (frame-write p _ ch out)
                  (omega arith))
                λ _ t (chain, head, same). (
                  cons-SameOutside xs (Points-write_self e (node a' c q)) l out
                      (rw (has-expire p clock (suc i) xs) out) same chain,
                  head,
                  λ x o. same x (ground arith) ∙ SameOutside-write s.heap p a _ xs x o,
                ))
        | inr alive ↦
            rw (e.not_null, load-ok s e, alive)
              (Returns.mono (expire_loop-expire k (suc i) s ch (omega arith))
                λ _ t (chain, head, same). (
                  cons-SameOutside xs e l out (rw (has-expire p clock (suc i) xs) out) same chain,
                  head,
                  SameOutside-cons p a xs same,
                ))
      ]

  list_expired-Chain :
      (k : ℕ) {h : Heap IdEntry} {p : Ptr} {xs : Cells IdEntry}
      → Chain L h null null p xs
      → length xs < k
      → Returns
          (λ _ t. IsQueue L t (expire clock 0 xs) × SameOutside xs h t.heap)
          (list_expired k clock (record { heap = h; head = p }))
  unfolding list_expired
  list_expired-Chain k {h} {p} ch fuel =
      Returns.mono (expire_loop-expire k 0 (record { heap = h; head = p }) ch fuel)
        λ _ t (chain, head, same). (rw head chain, same)

  -- On a whole transaction queue list_expired_idq marks exactly the entries whose time is over
  -- when the clock is read for them, leaves everything else of every entry as it is, and touches
  -- no address outside the queue.
  pub list_expired-expire :
      (k : ℕ) (s : IdStore) {xs : Cells IdEntry}
      → IsQueue L s xs
      → length xs < k
      → Returns
          (λ _ t. IsQueue L t (expire clock 0 xs) × SameOutside xs s.heap t.heap)
          (list_expired k clock s)
  list_expired-expire k s q fuel = list_expired-Chain k q fuel
