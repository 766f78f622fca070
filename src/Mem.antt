-- ===== src/Mem.antt =====
-- Memory: doubly linked nodes at addresses, the queue that a head pointer leads to, and commands
-- that read and write them. `tsidque_t`, `msgque_t`, `worker_t` and `job_t` are such nodes: the
-- links are `prev` and `next`, the other fields are the item.
pub mod Append
pub mod Points
pub mod Returns
pub mod Seg
use client_shared_lib.Base.{
  ℕ, ◌≡◌, refl, Bool, true, false, Option, none, some, ◌==◌, if◌then◌else◌,
}

abbrev pub Ptr : Type 0
Ptr = ℕ

abbrev pub null : Ptr
null = 0

pub record Node (A : Type 0) : Type 0 where
  pub item : A
  pub prev : Ptr
  pub next : Ptr

abbrev pub node : {A : Type 0} → A → Ptr → Ptr → Node A
node a b q = record { item = a; prev = b; next = q }

abbrev pub Heap : Type 0 → Type 0
Heap A = Ptr → Option (Node A)

-- A heap of nodes and the variable that holds the address of the first.
pub record Store (A : Type 0) : Type 0 where
  pub heap : Heap A
  pub head : Ptr

unfoldable pub write : {A : Type 0} → Heap A → Ptr → Option (Node A) → Heap A
write h p c a = if a == p then c else h a

-- `fault` is undefined behaviour: a read through NULL or a freed address, a write past the end of
-- an array, a division by zero. `out_of_fuel` means that the loop has not ended within its fuel.
pub data Run (S : Type 0) (A : Type 0) : Type 0 where
  ok : A → S → Run S A
  fault : Run S A
  out_of_fuel : Run S A

abbrev pub Cmd : Type 0 → Type 0 → Type 0
Cmd S A = S → Run S A

abbrev pub pure : {S A : Type 0} → A → Cmd S A
pure a s = ok a s

module _ {S A B : Type 0} where
  abbrev pub and_then : Run S A → (A → Cmd S B) → Run S B
  and_then (ok a s) k = k a s
  and_then fault k = fault
  and_then out_of_fuel k = out_of_fuel

  infixl 5 ◌>>=◌ ◌>>◌
  abbrev pub ◌>>=◌ : Cmd S A → (A → Cmd S B) → Cmd S B
  m >>= k = λ s. and_then (m s) k

  abbrev pub ◌>>◌ : Cmd S A → Cmd S B → Cmd S B
  m >> n = m >>= λ _. n

module _ {A : Type 0} where
  -- the raw write: `some n` fills the address, `none` gives it back
  abbrev pub store : Ptr → Option (Node A) → Cmd (Store A) (Unit {0})
  store p c s = ok tt (record s { heap = write s.heap p c })

  -- `*p`, a fault at `NULL` and at an address that holds no node
  unfoldable pub load : Ptr → Cmd (Store A) (Node A)
  load p s = if p == null then fault else elim (s.heap p) [ none ↦ fault | some n ↦ ok n s ]

  -- `p->next = q`
  unfoldable pub set_next : Ptr → Ptr → Cmd (Store A) (Unit {0})
  unfolding load
  set_next p q = do n ← load p; store p (some (record n { next = q }))

  -- `p->prev = q`
  unfoldable pub set_prev : Ptr → Ptr → Cmd (Store A) (Unit {0})
  unfolding load
  set_prev p q = do n ← load p; store p (some (record n { prev = q }))

  -- assignments to the other fields of `*p`
  unfoldable pub set_item : Ptr → A → Cmd (Store A) (Unit {0})
  unfolding load
  set_item p a = do n ← load p; store p (some (record n { item = a }))

  abbrev pub get_head : Cmd (Store A) Ptr
  get_head s = ok s.head s

  abbrev pub set_head : Ptr → Cmd (Store A) (Unit {0})
  set_head p s = ok tt (record s { head = p })

  unfoldable pub free : Ptr → Cmd (Store A) (Unit {0})
  unfolding load
  free p = load p >> store p none

  -- `calloc` returns `p`, which is NULL when memory is exhausted: the source does not look, and
  -- the first assignment to a field is then a fault.
  unfoldable pub alloc : Ptr → A → Cmd (Store A) (Unit {0})
  alloc p a s = if p == null then fault else store p (some (node a null null)) s
