-- ===== src/IdQueue/Entries.antt =====
-- The abstract view of the transaction queue: its entries in order, and what each operation of the
-- C code means for them.
use client_shared_lib.Base.{
  ℕ, suc, ◌≤◌, ◌≡◌, refl, sym, ap, ◌∙◌, inl, inr, Bool-cases, str_eq_sound, str_eq_refl, length,
  true, false, Option, none, some, [], ◌∷◌, ◌++◌, arith, str_eq, if◌then◌else◌,
}
use client_shared_lib.Mem.{Ptr}
use client_shared_lib.Mem.Seg.{Cells, has}
use client_shared_lib.Types.{CString, TimeVal, IdEntry}
use client_shared_lib.IdQueue.{is_past, refreshed}

-- the first entry with an id
unfoldable pub find : CString → Cells IdEntry → Option IdEntry
find tid [] = none
find tid ((p, e) ∷ xs) = if str_eq tid e.id then some e else find tid xs

-- the first entry with the id is refreshed
unfoldable pub refresh : TimeVal → CString → (f param : Ptr) → Cells IdEntry → Cells IdEntry
refresh now tid f param [] = []
refresh now tid f param ((p, e) ∷ xs) =
    if str_eq tid e.id
    then (p, refreshed now f param e) ∷ xs
    else (p, e) ∷ refresh now tid f param xs

-- the mark of an entry whose time is over
abbrev pub expired_at : TimeVal → IdEntry → IdEntry
expired_at now e = if is_past e.e_time now then record e { is_expired = true } else e

-- the entry at place `j`, counted from `i`, is compared with the `j`-th reading of the clock
unfoldable pub expire : (ℕ → TimeVal) → ℕ → Cells IdEntry → Cells IdEntry
expire clock i [] = []
expire clock i ((p, e) ∷ xs) = (p, expired_at (clock i) e) ∷ expire clock (suc i) xs

-- the first entry with the id is dropped
unfoldable pub erase : CString → Cells IdEntry → Cells IdEntry
erase tid [] = []
erase tid ((p, e) ∷ xs) = if str_eq e.id tid then xs else (p, e) ∷ erase tid xs

pub has-refresh :
    (a : Ptr) (now : TimeVal) (tid : CString) (f param : Ptr) (xs : Cells IdEntry)
    → has a (refresh now tid f param xs) ≡ has a xs
unfolding refresh
has-refresh a now tid f param [] = refl
has-refresh a now tid f param (x ∷ xs) = ground (arith, has-refresh a now tid f param xs)

pub has-expire :
    (a : Ptr) (clock : ℕ → TimeVal) (i : ℕ) (xs : Cells IdEntry)
    → has a (expire clock i xs) ≡ has a xs
unfolding expire
has-expire a clock i [] = refl
has-expire a clock i ((p, e) ∷ xs) = rw (has-expire a clock (suc i) xs)

pub not-has-erase :
    (a : Ptr) (tid : CString) (xs : Cells IdEntry) → has a xs ≡ false → has a (erase tid xs) ≡ false
unfolding erase
not-has-erase a tid [] out = refl
not-has-erase a tid (x ∷ xs) out = ground (arith, not-has-erase a tid xs)

pub find-append :
    (tid : CString) (xs ys : Cells IdEntry) → find tid xs ≡ none → find tid (xs ++ ys) ≡ find tid ys
unfolding find
find-append tid [] ys e = refl
find-append tid ((p, e) ∷ xs) ys h = ground (arith, find-append tid xs ys)

-- The ids of the entries differ.
abbrev pub IsDistinct : Cells IdEntry → Type 0
IsDistinct [] = Unit {0}
IsDistinct ((p, e) ∷ xs) = (find e.id xs ≡ none) × IsDistinct xs

pub str_eq_comm : (s t : CString) → str_eq s t ≡ str_eq t s
unfolding str_eq
str_eq_comm [] [] = refl
str_eq_comm [] (d ∷ t) = refl
str_eq_comm (c ∷ s) [] = refl
str_eq_comm (c ∷ s) (d ∷ t) = ground (arith, str_eq_comm s t)

pub length-erase : (tid : CString) (xs : Cells IdEntry) → length (erase tid xs) ≤ length xs
unfolding erase
length-erase tid [] = omega arith
length-erase tid ((p, e) ∷ xs) = ground (arith, length-erase tid xs)

-- an id that was dropped is gone, if the ids differ
pub find-erase :
    (tid : CString) (xs : Cells IdEntry) → IsDistinct xs → find tid (erase tid xs) ≡ none
unfolding find erase
find-erase tid [] apart = refl
find-erase tid ((p, e) ∷ xs) (first, apart) = elim (Bool-cases (str_eq e.id tid)) [
  | inl hit ↦
      rw hit (
        let same : e.id ≡ tid = str_eq_sound e.id tid hit in ap (λ i. find i xs) (sym same) ∙ first)
  | inr miss ↦ rw (miss, str_eq_comm tid e.id, miss) (find-erase tid xs apart)
]

-- a new entry at the end is found, and dropping it leaves the others
pub find-append_new :
    (p : Ptr) (e : IdEntry) (xs : Cells IdEntry)
    → find e.id xs ≡ none
    → find e.id (xs ++ (p, e) ∷ []) ≡ some e
unfolding find
find-append_new p e xs new = find-append e.id xs ((p, e) ∷ []) new ∙ rw (str_eq_refl e.id) refl

pub erase-append_new :
    (p : Ptr) (e : IdEntry) (xs : Cells IdEntry)
    → find e.id xs ≡ none
    → erase e.id (xs ++ (p, e) ∷ []) ≡ xs
unfolding find erase
erase-append_new p e [] new = rw (str_eq_refl e.id) refl
erase-append_new p e ((q, x) ∷ xs) new =
    ground (arith, str_eq_comm e.id x.id, erase-append_new p e xs)
