-- ===== src/TsQueue/Assign.antt =====
-- What the assignments of `threadsafe_queue` do.
use client_shared_lib.Base.{ℕ, ◌≡◌, ◌≢◌, true, false, List, arith, ◌==◌}
use client_shared_lib.Mem.{ok, fault}
use client_shared_lib.TsQueue.{Pair, is_held, copy_assign, move_assign}

module _ {A : Type 0} (this rhnd : ℕ) (s : Pair A) (apart : this ≢ rhnd)
    (free : is_held rhnd s.held ≡ false) where
  -- The second lock of the same mutex is undefined behaviour.
  pub copy_assign-faults : copy_assign this rhnd s ≡ fault
  unfolding copy_assign
  copy_assign-faults =
      let ne : (this == rhnd) ≡ false = ground arith in
      let self : (rhnd == rhnd) ≡ true = ground arith in rw (ne, free, self)

  -- The deque of the other queue is taken over, and the locks are given back.
  pub move_assign-moves :
      (left : List A)
      → is_held this s.held ≡ false
      → move_assign left this rhnd s ≡ ok tt (record s { this = s.other; other = left })
  unfolding move_assign
  move_assign-moves left free' =
      let ne : (this == rhnd) ≡ false = ground arith in
      let ne' : (rhnd == this) ≡ false = ground arith in rw (ne, free', ne', free)
