-- ===== src/Types/Lift.antt =====
-- What a command on one of the global variables returns, run on all of them.
use client_shared_lib.Base.{ℕ, ◌≡◌, refl}
use client_shared_lib.Mem.{Store, Run}
use client_shared_lib.Mem.Returns.{Returns, returns}
use client_shared_lib.Types.{Globals, IdEntry, Msg, put_ids, put_msgs, put_rr}

module _ {A : Type 0} (g : Globals) where
  pub put_ids-Returns :
      {P : A → Store IdEntry → Type 0} {r : Run (Store IdEntry) A}
      → Returns P r
      → Returns (λ a g'. (s : Store IdEntry) × (g' ≡ record g { ids = s }) × P a s) (put_ids g r)
  put_ids-Returns (returns {s} p) = returns (s, refl, p)

  pub put_msgs-Returns :
      {P : A → Store Msg → Type 0} {r : Run (Store Msg) A}
      → Returns P r
      → Returns (λ a g'. (s : Store Msg) × (g' ≡ record g { msgs = s }) × P a s) (put_msgs g r)
  put_msgs-Returns (returns {s} p) = returns (s, refl, p)

  pub put_rr-Returns :
      {P : A → ℕ → Type 0} {r : Run ℕ A}
      → Returns P r
      → Returns (λ a g'. (n : ℕ) × (g' ≡ record g { rr = n }) × P a n) (put_rr g r)
  put_rr-Returns (returns {s} p) = returns (s, refl, p)
