-- ===== src/Mem/Append.antt =====
-- Linking a node behind the last one: the loop that ends `add_entry_idq` and `push_to_msgq` of
-- mod_tcpclient/src/task.c.
use client_shared_lib.Base.{
  ℕ, zero, suc, ◌<◌, ◌≡◌, refl, ◌∙◌, false, some, [], ◌∷◌, ◌++◌, arith, ◌==◌, if◌then◌else◌, length,
}
use client_shared_lib.Mem.{
  Ptr, null, node, Heap, Store, write, Cmd, out_of_fuel, and_then, pure, ◌>>=◌, ◌>>◌, load,
  set_next, set_prev, get_head, set_head,
}
use client_shared_lib.Mem.Points.{
  Points, load-ok, set_next-ok, set_prev-ok, Points-write_self, Points-write_ne,
}
use client_shared_lib.Mem.Returns
use client_shared_lib.Mem.Returns.{Returns, returns}
use client_shared_lib.Mem.Seg.{Cells, has, not-has-snoc, Chain, nil, cons, IsQueue}

module _ {A : Type 0} where
  -- `while (trav->next != NULL) trav = trav->next;`
  last_loop : ℕ → Ptr → Cmd (Store A) Ptr
  last_loop zero trav = λ _. out_of_fuel
  last_loop (suc k) trav = do
    n ← load trav
    if n.next == null then pure trav else last_loop k n.next

  link_behind : Ptr → Ptr → Cmd (Store A) (Unit {0})
  link_behind temp trav = do set_next trav temp; set_prev temp trav

  unfoldable pub link_last : ℕ → Ptr → Cmd (Store A) (Unit {0})
  unfolding last_loop link_behind
  link_last k temp = do
    trav ← get_head
    if trav == null
        then (do set_head temp; set_prev temp null)
        else (last_loop k trav >>= link_behind temp)

-- every address but those of `xs` and `p` holds what it held
abbrev pub SameBut : {A : Type 0} → Ptr → Cells A → Heap A → Heap A → Type 0
SameBut p xs h g = (a : Ptr) → (a == p) ≡ false → has a xs ≡ false → g a ≡ h a

module _ {A : Type 0} {L : Ptr → Ptr → Type 0} (good : (b : Ptr) → L b b) {s : Store A} where
  -- The first node comes in its parts, since its address stands in two indices of the chain.
  link_behind-Chain :
      (k : ℕ) (temp : Ptr) {before p c q d : Ptr} {a b : A} {xs : Cells A}
      → Points s.heap temp (node a d null)
      → Points s.heap p (node b c q)
      → L before c
      → has p xs ≡ false
      → Chain L s.heap null p q xs
      → (temp == p) ≡ false
      → has temp xs ≡ false
      → length xs < k
      → Returns
          (λ _ t.
            Chain L t.heap null before p ((p, b) ∷ xs ++ (temp, a) ∷ [])
            × (t.head ≡ s.head)
            × SameBut temp ((p, b) ∷ xs) s.heap t.heap)
          (and_then (last_loop k p s) (link_behind temp))
  unfolding last_loop link_behind write
  link_behind-Chain zero temp f e l out ch ne away fuel = absurd (omega arith)
  link_behind-Chain (suc k) temp {p} {c} {a} {b} f e l out nil ne away fuel =
      let h = write s.heap p (some (node b c temp)) in
      let one = Points-write_self e (node b c temp) in
      let two = Points-write_ne f p (some (node b c temp)) ne in
      rw (load-ok s e, set_next-ok s e temp, set_prev-ok (record s { heap = h }) two p)
        (returns (
          cons (Points-write_ne one temp _ (ground arith)) l (ground arith)
              (cons (Points-write_self two _) (good p) refl nil),
          refl,
          λ x i o. ground arith,
        ))
  link_behind-Chain (suc k) temp {p} {c} {b} {xs} f e l out (cons e' l' out' ch) ne away fuel =
      rw (load-ok s e, e'.not_null)
        (Returns.mono
          (link_behind-Chain k temp f e' l' out' ch (ground arith) (ground arith) (omega arith))
          λ _ t (chain, head, same). (
            cons (record { not_null = e.not_null; holds = same p (ground arith) out ∙ e.holds }) l
                (not-has-snoc p temp _ xs out ne) chain,
            head,
            λ x i o. same x i (ground arith),
          ))

module _ {A : Type 0} {L : Ptr → Ptr → Type 0} (good : (b : Ptr) → L b b) where
  link_last-Chain :
      (k : ℕ) (temp : Ptr) {h : Heap A} {p d : Ptr} {a : A} {xs : Cells A}
      → Points h temp (node a d null)
      → Chain L h null null p xs
      → has temp xs ≡ false
      → length xs < k
      → Returns
          (λ _ t. IsQueue L t (xs ++ (temp, a) ∷ []) × SameBut temp xs h t.heap)
          (link_last k temp (record { heap = h; head = p }))
  unfolding link_last write
  link_last-Chain k temp {h} {p} f nil away fuel =
      rw (set_prev-ok (record { heap = h; head = temp }) f null)
        (returns (cons (Points-write_self f _) (good null) refl nil, λ x i o. ground arith))
  link_last-Chain k temp {h} {p} f (cons e l out ch) away fuel = rw e.not_null (
      Returns.mono
        (link_behind-Chain good k temp f e l out ch (ground arith) (ground arith) (omega arith))
        λ _ t (chain, head, same). (rw head chain, same))

  -- The fresh node becomes the last one, on the empty queue too.
  pub link_last-append :
      (k : ℕ) (temp : Ptr) {s : Store A} {d : Ptr} {a : A} {xs : Cells A}
      → Points s.heap temp (node a d null)
      → IsQueue L s xs
      → has temp xs ≡ false
      → length xs < k
      → Returns
          (λ _ t. IsQueue L t (xs ++ (temp, a) ∷ []) × SameBut temp xs s.heap t.heap)
          (link_last k temp s)
  link_last-append k temp f q away fuel = link_last-Chain k temp f q away fuel
