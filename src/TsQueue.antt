-- ===== src/TsQueue.antt =====
-- `threadsafe_queue` of mod_tcpclient/include/safeqtempl.h. A member function holds the mutex of its
-- queue, and is one step on the deque; a wait for an item ends when there is one. The assignments
-- hold the mutexes of two queues, so those are written out.
pub mod Assign
use client_shared_lib.Base.{
  ℕ, zero, suc, Bool, true, false, Option, none, some, List, [], ◌∷◌, ◌++◌, ◌==◌, length,
  if◌then◌else◌,
}
use client_shared_lib.Mem.{Cmd, ok, fault, pure, ◌>>=◌, ◌>>◌}

module _ {A : Type 0} where
  unfoldable pub push_back : A → List A → List A
  push_back item queue = queue ++ item ∷ []

  -- `none`: the caller waits.
  unfoldable pub pop_front : List A → Option (A × List A)
  pop_front [] = none
  pop_front (n ∷ queue) = some (n, queue)

  unfoldable pub front : List A → Option A
  front [] = none
  front (n ∷ queue) = some n

  abbrev pub size : List A → ℕ
  size queue = length queue

  abbrev pub empty : List A → Bool
  empty queue = size queue == 0

  -- the loop of `clear`, which ends with an empty deque
  unfoldable pub clear : List A → List A
  clear [] = []
  clear (n ∷ queue) = clear queue

-- Two queues, `*this` and `rHnd`, and the mutexes that the calling thread holds.
pub record Pair (A : Type 0) : Type 0 where
  pub this : List A
  pub other : List A
  pub held : List ℕ

abbrev pub is_held : ℕ → List ℕ → Bool
is_held m [] = false
is_held m (n ∷ held) = if m == n then true else is_held m held

-- the end of the scope of `n` locks
abbrev pub release : ℕ → List ℕ → List ℕ
release zero held = held
release (suc n) [] = []
release (suc n) (m ∷ held) = release n held

module _ {A : Type 0} where
  -- `std::unique_lock mlock(m)`: to lock a mutex that the thread holds is undefined behaviour.
  abbrev pub lock : ℕ → Cmd (Pair A) (Unit {0})
  lock m s = if is_held m s.held then fault else ok tt (record s { held = m ∷ s.held })

  abbrev pub unlock : ℕ → Cmd (Pair A) (Unit {0})
  unlock n s = ok tt (record s { held = release n s.held })

  -- The copy constructor: `*this` is new, and needs no lock.
  unfoldable pub copy : (rhnd : ℕ) → Cmd (Pair A) (Unit {0})
  copy rhnd = do lock rhnd; (λ s. ok tt (record s { this = s.other })); unlock 1

  -- The move constructor; `left` is what the deque that is moved from is left with.
  unfoldable pub move : (left : List A) → (rhnd : ℕ) → Cmd (Pair A) (Unit {0})
  move left rhnd = do lock rhnd; (λ s. ok tt (record s { this = s.other; other = left })); unlock 1

  -- `operator=(const threadsafe_queue&)`: both locks are of the mutex of `rHnd`.
  unfoldable pub copy_assign : (this rhnd : ℕ) → Cmd (Pair A) (Unit {0})
  copy_assign this rhnd =
      if this == rhnd
      then pure tt
      else do lock rhnd; lock rhnd; (λ s. ok tt (record s { this = s.other })); unlock 2

  -- `operator=(threadsafe_queue&&)`
  unfoldable pub move_assign : (left : List A) → (this rhnd : ℕ) → Cmd (Pair A) (Unit {0})
  move_assign left this rhnd = if this == rhnd then pure tt else do
    lock this
    lock rhnd
    (λ s. ok tt (record s { this = s.other; other = left }))
    unlock 2
