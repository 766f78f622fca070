-- ===== src/Api/Managed.antt =====
-- Round after round, the queue manager marks what has expired and nothing else.
use client_shared_lib.Base.{ℕ, suc, Bool, false, ◌||◌, List, [], ◌∷◌}
use client_shared_lib.Mem.Returns
use client_shared_lib.Mem.Returns.{Returns}
use client_shared_lib.Mem.Seg.{Cells}
use client_shared_lib.Types.{TimeVal, IdEntry}
use client_shared_lib.IdQueue.{is_past}

-- in one of the rounds, the time of the entry at place `j` was over
abbrev pub ever_past : List (ℕ → TimeVal) → ℕ → IdEntry → Bool
ever_past [] j e = false
ever_past (clock ∷ clocks) j e = is_past e.e_time (clock j) || ever_past clocks j e

abbrev pub managed : List (ℕ → TimeVal) → ℕ → Cells IdEntry → Cells IdEntry
managed clocks j [] = []
managed clocks j ((p, e) ∷ xs) =
    (p, record e { is_expired = e.is_expired || ever_past clocks j e }) ∷ managed clocks (suc j) xs
