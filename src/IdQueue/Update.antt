-- ===== src/IdQueue/Update.antt =====
-- `update_entry_idq` refreshes the first entry with the id and keeps its connection.
use client_shared_lib.Base.{
  ℕ, zero, suc, ◌<◌, ◌≡◌, refl, inl, inr, Option, none, some, [], ◌∷◌, arith, length, str_eq,
  Bool-cases,
}
use client_shared_lib.Base.Int.{ℤ, pos, negsuc}
use client_shared_lib.Mem.{Ptr, null, Heap}
use client_shared_lib.Mem.Points.{load-ok, set_item-ok}
use client_shared_lib.Mem.Returns
use client_shared_lib.Mem.Returns.{Returns, returns}
use client_shared_lib.Mem.Seg.{
  Cells, Chain, nil, cons, IsQueue, SameOutside, SameOutside-cons, cons-SameOutside, cons-write,
  SameOutside-write,
}
use client_shared_lib.Types.{CString, TimeVal, IdEntry}
use client_shared_lib.IdQueue.{IdStore, refreshed, update_loop, update_entry}
use client_shared_lib.IdQueue.Entries.{find, refresh, has-refresh}

-- -1 when no entry of a queue has the id
abbrev pub updated : Option IdEntry → ℤ
updated none = negsuc 0
updated (some e) = pos e.conn

-- 0 for the empty queue
abbrev pub updated_in : CString → Cells IdEntry → ℤ
updated_in tid [] = pos 0
updated_in tid (x ∷ xs) = updated (find tid (x ∷ xs))

module _ {L : Ptr → Ptr → Type 0} (now : TimeVal) (tid : CString) (f param : Ptr) where
  update_loop-refresh :
      (k : ℕ) (s : IdStore) {b p : Ptr} {xs : Cells IdEntry}
      → Chain L s.heap null b p xs
      → length xs < k
      → Returns
          (λ r t.
            (r ≡ updated (find tid xs))
            × Chain L t.heap null b p (refresh now tid f param xs)
            × (t.head ≡ s.head)
            × SameOutside xs s.heap t.heap)
          (update_loop k now tid f param p s)
  unfolding update_loop find refresh
  update_loop-refresh zero s ch fuel = absurd (omega arith)
  update_loop-refresh (suc k) s nil fuel = returns (refl, nil, refl, λ x i. refl)
  update_loop-refresh (suc k) s (cons {p} {c} {q} {a} {xs} e l out ch) fuel =
      elim (Bool-cases (str_eq tid a.id)) [
        | inl hit ↦
            let a' = refreshed now f param a in
            rw (e.not_null, load-ok s e, hit, set_item-ok s e a')
              (returns (refl, cons-write a' e l out ch, refl, SameOutside-write s.heap p a _ xs))
        | inr miss ↦
            rw (e.not_null, load-ok s e, miss)
              (Returns.mono (update_loop-refresh k s ch (omega arith))
                λ r t (res, chain, head, same). (
                  res,
                  cons-SameOutside xs e l out (rw (has-refresh p now tid f param xs) out) same
                      chain,
                  head,
                  SameOutside-cons p a xs same,
                ))
      ]

  update_entry-Chain :
      (k : ℕ) {h : Heap IdEntry} {p : Ptr} {xs : Cells IdEntry}
      → Chain L h null null p xs
      → length xs < k
      → Returns
          (λ r t.
            (r ≡ updated_in tid xs)
            × IsQueue L t (refresh now tid f param xs)
            × SameOutside xs h t.heap)
          (update_entry k now tid f param (record { heap = h; head = p }))
  unfolding update_entry refresh
  update_entry-Chain k nil fuel = returns (refl, nil, λ x i. refl)
  update_entry-Chain k {h} {p} (cons e l out ch) fuel = rw e.not_null (
      Returns.mono (update_loop-refresh k (record { heap = h; head = p }) (cons e l out ch) fuel)
        λ r t (res, chain, head, same). (res, rw head chain, same))

  -- On a whole transaction queue update_entry_idq gives the first entry with the id new times and
  -- a new callback, keeps its mark, and returns its connection; it returns -1 if no entry has the
  -- id, 0 if there is no entry, and changes no address outside the queue.
  pub update_entry-refresh :
      (k : ℕ) (s : IdStore) {xs : Cells IdEntry}
      → IsQueue L s xs
      → length xs < k
      → Returns
          (λ r t.
            (r ≡ updated_in tid xs)
            × IsQueue L t (refresh now tid f param xs)
            × SameOutside xs s.heap t.heap)
          (update_entry k now tid f param s)
  update_entry-refresh k s q fuel = update_entry-Chain k q fuel
