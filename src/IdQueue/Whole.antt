-- ===== src/IdQueue/Whole.antt =====
-- What every operation on the transaction queue keeps: the ids of its entries differ, and the
-- connection of each entry is one of the peers.
use client_shared_lib.Base.{
  ℕ, suc, ◌<◌, ◌≡◌, refl, ◌∙◌, inl, inr, Bool-cases, false, none, some, [], ◌∷◌, ◌++◌, arith,
  str_eq,
}
use client_shared_lib.Mem.{Ptr}
use client_shared_lib.Mem.Seg.{Cells}
use client_shared_lib.Types.{CString, TimeVal, IdEntry}
use client_shared_lib.IdQueue.{is_past}
use client_shared_lib.IdQueue.Entries.{find, refresh, expire, erase, IsDistinct, str_eq_comm}

-- The connection of each entry is one of the `n` peers.
abbrev pub AllServed : ℕ → Cells IdEntry → Type 0
AllServed n [] = Unit {0}
AllServed n ((p, e) ∷ xs) = (e.conn < n) × AllServed n xs

module _ (t : CString) where
  none-refresh :
      (now : TimeVal) (tid : CString) (f param : Ptr) (xs : Cells IdEntry)
      → find t xs ≡ none
      → find t (refresh now tid f param xs) ≡ none
  unfolding find refresh
  none-refresh now tid f param [] absent = absent
  none-refresh now tid f param ((p, e) ∷ xs) absent =
      ground (arith, none-refresh now tid f param xs)

  none-expire :
      (clock : ℕ → TimeVal) (i : ℕ) (xs : Cells IdEntry)
      → find t xs ≡ none
      → find t (expire clock i xs) ≡ none
  unfolding find expire
  none-expire clock i [] absent = absent
  none-expire clock i ((p, e) ∷ xs) absent = elim (Bool-cases (is_past e.e_time (clock i))) [
    | inl past ↦ rw past (ground (arith, none-expire clock (suc i) xs))
    | inr alive ↦ rw alive (ground (arith, none-expire clock (suc i) xs))
  ]

  none-erase :
      (tid : CString) (xs : Cells IdEntry) → find t xs ≡ none → find t (erase tid xs) ≡ none
  unfolding find erase
  none-erase tid [] absent = absent
  none-erase tid ((p, e) ∷ xs) absent = ground (arith, none-erase tid xs)

  none-append :
      (xs : Cells IdEntry) (p : Ptr) (e : IdEntry)
      → find t xs ≡ none
      → str_eq t e.id ≡ false
      → find t (xs ++ (p, e) ∷ []) ≡ none
  unfolding find
  none-append [] p e absent other = rw other
  none-append (x ∷ xs) p e absent other = ground (arith, none-append xs p e)

module _ (n : ℕ) where
  pub served :
      (t : CString) (xs : Cells IdEntry) {e : IdEntry}
      → AllServed n xs
      → find t xs ≡ some e
      → e.conn < n
  unfolding find
  served t [] all found = cc
  served t ((p, x) ∷ xs) {e} (first, all) found = elim (Bool-cases (str_eq t x.id)) [
    | inl hit ↦
        let same : some x ≡ some e = rw hit at found in let eq : x ≡ e = cc in rw eq at first
    | inr miss ↦ served t xs all (rw miss at found)
  ]

module _ (now : TimeVal) (tid : CString) (f param : Ptr) where
  pub refresh-IsDistinct :
      (xs : Cells IdEntry) → IsDistinct xs → IsDistinct (refresh now tid f param xs)
  unfolding refresh
  refresh-IsDistinct [] apart = tt
  refresh-IsDistinct ((p, e) ∷ xs) (first, apart) = elim (Bool-cases (str_eq tid e.id)) [
    | inl hit ↦ rw hit (first, apart)
    | inr miss ↦ rw miss (none-refresh e.id now tid f param xs first, refresh-IsDistinct xs apart)
  ]

  pub refresh-AllServed :
      (n : ℕ) (xs : Cells IdEntry) → AllServed n xs → AllServed n (refresh now tid f param xs)
  unfolding refresh
  refresh-AllServed n [] all = tt
  refresh-AllServed n ((p, e) ∷ xs) (first, all) = elim (Bool-cases (str_eq tid e.id)) [
    | inl hit ↦ rw hit (first, all)
    | inr miss ↦ rw miss (first, refresh-AllServed n xs all)
  ]

module _ (clock : ℕ → TimeVal) where
  pub expire-IsDistinct :
      (i : ℕ) (xs : Cells IdEntry) → IsDistinct xs → IsDistinct (expire clock i xs)
  unfolding expire
  expire-IsDistinct i [] apart = tt
  expire-IsDistinct i ((p, e) ∷ xs) (first, apart) =
      elim (Bool-cases (is_past e.e_time (clock i))) [
        | inl past ↦
            rw past (none-expire e.id clock (suc i) xs first, expire-IsDistinct (suc i) xs apart)
        | inr alive ↦
            rw alive (none-expire e.id clock (suc i) xs first, expire-IsDistinct (suc i) xs apart)
      ]

  pub expire-AllServed :
      (n i : ℕ) (xs : Cells IdEntry) → AllServed n xs → AllServed n (expire clock i xs)
  unfolding expire
  expire-AllServed n i [] all = tt
  expire-AllServed n i ((p, e) ∷ xs) (first, all) = elim (Bool-cases (is_past e.e_time (clock i))) [
    | inl past ↦ rw past (first, expire-AllServed n (suc i) xs all)
    | inr alive ↦ rw alive (first, expire-AllServed n (suc i) xs all)
  ]

module _ (tid : CString) where
  pub erase-IsDistinct : (xs : Cells IdEntry) → IsDistinct xs → IsDistinct (erase tid xs)
  unfolding erase
  erase-IsDistinct [] apart = tt
  erase-IsDistinct ((p, e) ∷ xs) (first, apart) = elim (Bool-cases (str_eq e.id tid)) [
    | inl hit ↦ rw hit apart
    | inr miss ↦ rw miss (none-erase e.id tid xs first, erase-IsDistinct xs apart)
  ]

  pub erase-AllServed : (n : ℕ) (xs : Cells IdEntry) → AllServed n xs → AllServed n (erase tid xs)
  unfolding erase
  erase-AllServed n [] all = tt
  erase-AllServed n ((p, e) ∷ xs) (first, all) = elim (Bool-cases (str_eq e.id tid)) [
    | inl hit ↦ rw hit all
    | inr miss ↦ rw miss (first, erase-AllServed n xs all)
  ]

-- an entry with a new id comes at the end
pub append-IsDistinct :
    (xs : Cells IdEntry) (p : Ptr) (e : IdEntry)
    → IsDistinct xs
    → find e.id xs ≡ none
    → IsDistinct (xs ++ (p, e) ∷ [])
unfolding find
append-IsDistinct [] p e apart new = (refl, tt)
append-IsDistinct ((q, x) ∷ xs) p e (first, apart) new = elim (Bool-cases (str_eq e.id x.id)) [
  | inl hit ↦ let bad : some x ≡ none = rw hit at new in cc
  | inr miss ↦ (
    none-append x.id xs p e first (str_eq_comm x.id e.id ∙ miss),
    append-IsDistinct xs p e apart (rw miss at new),
  )
]

pub append-AllServed :
    (n : ℕ) (xs : Cells IdEntry) (p : Ptr) (e : IdEntry)
    → AllServed n xs
    → e.conn < n
    → AllServed n (xs ++ (p, e) ∷ [])
append-AllServed n [] p e all h = (h, tt)
append-AllServed n (x ∷ xs) p e (first, all) h = (first, append-AllServed n xs p e all h)
