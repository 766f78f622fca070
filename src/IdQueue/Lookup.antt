-- ===== src/IdQueue/Lookup.antt =====
-- `is_ID_present_idq` and `lookup_ID_idq` find the first entry with the id, and write nothing.
use client_shared_lib.Base.{
  ℕ, zero, suc, ◌<◌, ◌≡◌, refl, inl, inr, Option, none, some, arith, length, str_eq, Bool-cases,
  if◌then◌else◌,
}
use client_shared_lib.Mem.{Ptr, null, Heap, ok}
use client_shared_lib.Mem.Points.{load-ok}
use client_shared_lib.Mem.Seg.{Cells, Chain, nil, cons, IsQueue}
use client_shared_lib.Types.{CString, TimeVal, IdEntry, is_empty}
use client_shared_lib.IdQueue.{
  IdStore, Found, found, is_present_loop, is_id_present, lookup_loop, lookup_id,
}
use client_shared_lib.IdQueue.Entries.{find}

-- The empty id is never found.
abbrev pub search_id : CString → Cells IdEntry → Option IdEntry
search_id tid xs = if is_empty tid then none else find tid xs

abbrev pub conn_of : Option IdEntry → Option ℕ
conn_of none = none
conn_of (some e) = some e.conn

abbrev pub found_of : TimeVal → Option IdEntry → Option Found
found_of curr none = none
found_of curr (some e) = some (found curr e)

module _ {L : Ptr → Ptr → Type 0} where
  is_present_loop-find :
      (k : ℕ) (tid : CString) (s : IdStore) {b p : Ptr} {xs : Cells IdEntry}
      → Chain L s.heap null b p xs
      → length xs < k
      → is_present_loop k tid p s ≡ ok (conn_of (find tid xs)) s
  unfolding is_present_loop find
  is_present_loop-find zero tid s ch fuel = absurd (omega arith)
  is_present_loop-find (suc k) tid s nil fuel = refl
  is_present_loop-find (suc k) tid s (cons {a = entry} e l out ch) fuel =
      elim (Bool-cases (str_eq tid entry.id)) [
        | inl hit ↦ rw (e.not_null, load-ok s e, hit)
        | inr miss ↦
            rw (e.not_null, load-ok s e, miss) (is_present_loop-find k tid s ch (omega arith))
      ]

  lookup_loop-find :
      (k : ℕ) (curr : TimeVal) (tid : CString) (s : IdStore) {b p : Ptr} {xs : Cells IdEntry}
      → Chain L s.heap null b p xs
      → length xs < k
      → lookup_loop k curr tid p s ≡ ok (found_of curr (find tid xs)) s
  unfolding lookup_loop find
  lookup_loop-find zero curr tid s ch fuel = absurd (omega arith)
  lookup_loop-find (suc k) curr tid s nil fuel = refl
  lookup_loop-find (suc k) curr tid s (cons {a = entry} e l out ch) fuel =
      elim (Bool-cases (str_eq tid entry.id)) [
        | inl hit ↦ rw (e.not_null, load-ok s e, hit)
        | inr miss ↦
            rw (e.not_null, load-ok s e, miss) (lookup_loop-find k curr tid s ch (omega arith))
      ]

  is_id_present-Chain :
      (k : ℕ) (tid : CString) {h : Heap IdEntry} {p : Ptr} {xs : Cells IdEntry}
      → Chain L h null null p xs
      → length xs < k
      → is_id_present k tid (record { heap = h; head = p })
        ≡ ok (conn_of (search_id tid xs)) (record { heap = h; head = p })
  unfolding is_id_present find
  is_id_present-Chain k tid nil fuel = ground arith
  is_id_present-Chain k tid {h} {p} (cons e l out ch) fuel = elim (Bool-cases (is_empty tid)) [
    | inl none' ↦ rw (e.not_null, none')
    | inr some' ↦
        rw (e.not_null, some')
          (is_present_loop-find k tid (record { heap = h; head = p }) (cons e l out ch) fuel)
  ]

  -- On a whole transaction queue is_ID_present_idq changes nothing and returns the connection of
  -- the first entry with the id; it returns nothing for an empty id or one that no entry has.
  pub is_id_present-find :
      (k : ℕ) (tid : CString) (s : IdStore) {xs : Cells IdEntry}
      → IsQueue L s xs
      → length xs < k
      → is_id_present k tid s ≡ ok (conn_of (search_id tid xs)) s
  is_id_present-find k tid s q fuel = is_id_present-Chain k tid q fuel

  lookup_id-Chain :
      (k : ℕ) (curr : TimeVal) (tid : CString) {h : Heap IdEntry} {p : Ptr} {xs : Cells IdEntry}
      → Chain L h null null p xs
      → length xs < k
      → lookup_id k curr tid (record { heap = h; head = p })
        ≡ ok (found_of curr (search_id tid xs)) (record { heap = h; head = p })
  unfolding lookup_id find
  lookup_id-Chain k curr tid nil fuel = ground arith
  lookup_id-Chain k curr tid {h} {p} (cons e l out ch) fuel = elim (Bool-cases (is_empty tid)) [
    | inl none' ↦ rw (e.not_null, none')
    | inr some' ↦
        rw (e.not_null, some')
          (lookup_loop-find k curr tid (record { heap = h; head = p }) (cons e l out ch) fuel)
  ]

  -- On a whole transaction queue lookup_ID_idq changes nothing and returns the mark, the callback
  -- and the age of the first entry with the id; it returns nothing for an empty id or one that no
  -- entry has.
  pub lookup_id-find :
      (k : ℕ) (curr : TimeVal) (tid : CString) (s : IdStore) {xs : Cells IdEntry}
      → IsQueue L s xs
      → length xs < k
      → lookup_id k curr tid s ≡ ok (found_of curr (search_id tid xs)) s
  lookup_id-find k curr tid s q fuel = lookup_id-Chain k curr tid q fuel
