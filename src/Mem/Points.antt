-- ===== src/Mem/Points.antt =====
-- One node: what each access to it does.
use client_shared_lib.Base.{◌≡◌, false, none, some, arith, ◌==◌}
use client_shared_lib.Mem.{
  Ptr, null, Node, Heap, Store, write, ok, fault, load, set_next, set_prev, set_item, free,
}

-- `p` is not NULL and its node is `n`.
pub record Points {A : Type 0} (h : Heap A) (p : Ptr) (n : Node A) : Type 0 where
  pub not_null : (p == null) ≡ false
  pub holds : h p ≡ some n

module _ {A : Type 0} (s : Store A) {p : Ptr} {n : Node A} (e : Points s.heap p n) where
  pub load-ok : load p s ≡ ok n s
  unfolding load
  load-ok = rw (e.not_null, e.holds)

  pub set_next-ok :
      (q : Ptr)
      → set_next p q s ≡ ok tt (record s { heap = write s.heap p (some (record n { next = q })) })
  unfolding set_next load
  set_next-ok q = rw (e.not_null, e.holds)

  pub set_prev-ok :
      (q : Ptr)
      → set_prev p q s ≡ ok tt (record s { heap = write s.heap p (some (record n { prev = q })) })
  unfolding set_prev load
  set_prev-ok q = rw (e.not_null, e.holds)

  pub set_item-ok :
      (a : A)
      → set_item p a s ≡ ok tt (record s { heap = write s.heap p (some (record n { item = a })) })
  unfolding set_item load
  set_item-ok a = rw (e.not_null, e.holds)

  pub free-ok : free p s ≡ ok tt (record s { heap = write s.heap p none })
  unfolding free load
  free-ok = rw (e.not_null, e.holds)

module _ {A : Type 0} {h : Heap A} {p : Ptr} {n : Node A} (e : Points h p n) where
  -- the address holds what was written last
  pub Points-write_self : (m : Node A) → Points (write h p (some m)) p m
  unfolding write
  Points-write_self m = record { not_null = e.not_null; holds = ground arith }

  pub Points-write_ne : (q : Ptr) (c : _) → (p == q) ≡ false → Points (write h q c) p n
  unfolding write
  Points-write_ne q c d = record { not_null = e.not_null; holds = rw d e.holds }

module _ {A : Type 0} (s : Store A) (p : Ptr) where
  -- a read at an address that holds no node
  pub load-fault : (p == null) ≡ false → s.heap p ≡ none → load p s ≡ fault
  unfolding load
  load-fault ne unused = rw (ne, unused)
